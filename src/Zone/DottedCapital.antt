-- ===== src/Zone/DottedCapital.antt =====
-- U+0130, the one code point whose lower case is two, is a label character.
use atrium_ddns.Prelude.{◌≡◌, refl, false, true, ◌++◌, arith, length-append}
use atrium_ddns.Text.{Text, has_char, rfind_suffix, lower-append, length-lt-lower}
use atrium_ddns.Hostname.{is_label_char}
use atrium_ddns.Zone.{zone_contains}

label_char : is_label_char 0x130 ≡ true
unfolding is_label_char
label_char = refl

-- The label pattern lets U+0130 through, and a name that holds one in front of a zone without one
-- is not in that zone by `zone_contains`, though it ends in it.
pub dotted_capital_refused :
    (zone pre : Text)
    → has_char 0x130 zone ≡ false
    → has_char 0x130 pre ≡ true
    → (is_label_char 0x130 ≡ true) × (zone_contains zone (pre ++ zone) ≡ false)
unfolding zone_contains
dotted_capital_refused zone pre plain dotted = (
  label_char,
  rw (lower-append, rfind_suffix)
      (ground (arith, length-append pre zone, length-lt-lower pre dotted)),
)
