-- ===== src/Zone.antt =====
-- `zone_contains` (backend/src/atrium_ddns/providers/base.py): whether a host name sits in a zone.
pub mod Suffix
pub mod DottedCapital
use atrium_ddns.Prelude.{ℕ, ◌+◌, Bool, false, Option, none, some, ◌==◌, length}
use atrium_ddns.Text.{Text, lower, rfind}

-- The position is found in the lowered texts, and compared by the lengths of the unlowered ones.
abbrev ends_at : Option ℕ → ℕ → ℕ → Bool
ends_at none zone_len len = false
ends_at (some position) zone_len len = position + zone_len == len

unfoldable pub zone_contains : Text → Text → Bool
zone_contains zone hostname =
    ends_at (rfind (lower hostname) (lower zone)) (length zone) (length hostname)
