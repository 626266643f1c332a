-- ===== src/Resolvers.antt =====
-- `normalise_resolvers` (backend/src/atrium_ddns/resolvers.py).
pub mod Canonical
pub mod Complete
use atrium_ddns.Prelude.{Option, none, some, List, [], ◌∷◌, ◌++◌, ◌>>=◌, if◌then◌else◌}
use atrium_ddns.Text.{Text, strip, is_empty, contains}
use atrium_ddns.Address.{ip_address, print_address}

-- `str(ipaddress.ip_address(text))`.
unfoldable pub canonical : Text → Option Text
canonical text = do address ← ip_address text; some (print_address address)

-- `if address not in out: out.append(address)`.
abbrev pub append_new : List Text → Text → List Text
append_new out address = if contains out address then out else out ++ address ∷ []

-- An entry: a blank one is passed over, and `none` is the `ValueError`.
abbrev pub add_resolver : List Text → Text → Option (List Text)
add_resolver out text =
    if is_empty text then some out else (do address ← canonical text; some (append_new out address))

-- The loop, with what is collected so far.
unfoldable pub normalise_from : List Text → List Text → Option (List Text)
normalise_from out [] = some out
normalise_from out (raw ∷ values) = do
  next ← add_resolver out (strip raw)
  normalise_from next values

unfoldable pub normalise_resolvers : List Text → Option (List Text)
normalise_resolvers values = normalise_from [] values
