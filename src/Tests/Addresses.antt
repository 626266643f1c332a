-- ===== src/Tests/Addresses.antt =====
-- `normalise_address` on the spellings that the frozen protocol table lists.
use atrium_ddns.Prelude.{◌≡◌, refl, none, some}
use atrium_ddns.Text.{codes}
use atrium_ddns.Address.{normalise_address}

plain_v4 : normalise_address (codes "192.0.2.33") ≡ some (codes "192.0.2.33")
unfolding normalise_address
plain_v4 = refl

leading_zero : normalise_address (codes "192.0.02.33") ≡ none
unfolding normalise_address
leading_zero = refl

compressed : normalise_address (codes "2001:0DB8:0000::1") ≡ some (codes "2001:db8::1")
unfolding normalise_address
compressed = refl

dotted_tail : normalise_address (codes "64:ff9b::192.0.2.33") ≡ some (codes "64:ff9b::c000:221")
unfolding normalise_address
dotted_tail = refl

scope_id : normalise_address (codes "fe80::1%eth0") ≡ some (codes "fe80::1%eth0")
unfolding normalise_address
scope_id = refl

mapped_v4 : normalise_address (codes "::FFFF:192.0.2.1") ≡ some (codes "::ffff:192.0.2.1")
unfolding normalise_address
mapped_v4 = refl

all_zeros : normalise_address (codes "0:0:0:0:0:0:0:0") ≡ some (codes "::")
unfolding normalise_address
all_zeros = refl

trailing_zeros : normalise_address (codes "1:0:0:2::") ≡ some (codes "1:0:0:2::")
unfolding normalise_address
trailing_zeros = refl

two_gaps : normalise_address (codes "1::2::3") ≡ none
unfolding normalise_address
two_gaps = refl
