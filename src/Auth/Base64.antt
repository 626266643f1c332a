-- ===== src/Auth/Base64.antt =====
-- `base64.b64decode(s, validate=True)`: groups of four characters, padding in the last one only.
pub mod RoundTrip
use atrium_ddns.Prelude.{
  ℕ, ◌+◌, ◌-◌, ◌*◌, ◌/◌, ◌%◌, ◌&&◌, Option, none, some, List, [], ◌∷◌, ◌==◌, leb, if◌then◌else◌,
}
use atrium_ddns.Text.{Text, is_empty}

-- The value of a character of the alphabet.
unfoldable pub value : ℕ → Option ℕ
value c =
    if leb b'A' c && leb c b'Z'
    then some (c - 65)
    else if leb b'a' c && leb c b'z'
    then some (c - 71)
    else if leb b'0' c && leb c b'9'
    then some (c + 4)
    else if c == b'+'
    then some 62
    else if c == b'/'
    then some 63
    else none

abbrev bytes_of_two : Option ℕ → Option ℕ → Option (List ℕ)
bytes_of_two (some x) (some y) = some ((x * 4 + y / 16) ∷ [])
bytes_of_two _ _ = none

abbrev bytes_of_three : Option ℕ → Option ℕ → Option ℕ → Option (List ℕ)
bytes_of_three (some x) (some y) (some z) = some ((x * 4 + y / 16) ∷ ((y % 16) * 16 + z / 4) ∷ [])
bytes_of_three _ _ _ = none

abbrev bytes_of_four : Option ℕ → Option ℕ → Option ℕ → Option ℕ → Option (List ℕ) → Option (List ℕ)
bytes_of_four (some x) (some y) (some z) (some w) (some rest) =
    some ((x * 4 + y / 16) ∷ ((y % 16) * 16 + z / 4) ∷ ((z % 4) * 64 + w) ∷ rest)
bytes_of_four _ _ _ _ _ = none

-- `none` is the `binascii.Error` or the `ValueError`.
unfoldable pub b64decode : Text → Option (List ℕ)
b64decode [] = some []
b64decode (a ∷ b ∷ c ∷ d ∷ s) =
    let rest = b64decode s in
    if is_empty s && d == b'='
    then (if c == b'='
        then bytes_of_two (value a) (value b)
        else bytes_of_three (value a) (value b) (value c))
    else bytes_of_four (value a) (value b) (value c) (value d) rest
b64decode _ = none
