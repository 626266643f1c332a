-- ===== src/Auth/Utf8.antt =====
-- `raw.decode("utf-8")` and the length of `text.encode("utf-8")`.
pub mod RoundTrip
use atrium_ddns.Prelude.{
  ℕ, zero, suc, ◌+◌, ◌-◌, ◌*◌, ◌%◌, ◌&&◌, Option, none, some, List, [], ◌∷◌, ◌==◌, leb, ltb,
  if◌then◌else◌,
}
use atrium_ddns.Text.{Text}

-- Between characters, or inside one: how many bytes are missing after the next, the bits so far,
-- and the range of the next byte.
pub data Utf8State : Type 0 where
  start : Utf8State
  more : ℕ → ℕ → ℕ → ℕ → Utf8State

-- What a first byte begins: a character of its own, a longer one, or nothing valid.
pub data Lead : Type 0 where
  ascii bad : Lead
  begins : ℕ → ℕ → ℕ → ℕ → Lead

unfoldable pub lead : ℕ → Lead
lead b =
    if ltb b 0x80
    then ascii
    else if ltb b 0xc2
    then bad
    else if ltb b 0xe0
    then begins 0 (b - 0xc0) 0x80 0xbf
    else if b == 0xe0
    then begins 1 0 0xa0 0xbf
    else if b == 0xed
    then begins 1 13 0x80 0x9f
    else if ltb b 0xf0
    then begins 1 (b - 0xe0) 0x80 0xbf
    else if b == 0xf0
    then begins 2 0 0x90 0xbf
    else if ltb b 0xf4
    then begins 2 (b - 0xf0) 0x80 0xbf
    else if b == 0xf4
    then begins 2 4 0x80 0x8f
    else bad

abbrev emit : ℕ → Option Text → Option Text
emit c none = none
emit c (some s) = some (c ∷ s)

-- `none` is the `UnicodeDecodeError`.
unfoldable pub decode_from : Utf8State → List ℕ → Option Text
decode_from start [] = some []
decode_from (more n acc lo hi) [] = none
decode_from start (b ∷ s) = elim (lead b) [
  | ascii ↦ emit b (decode_from start s)
  | bad ↦ none
  | begins n acc lo hi ↦ decode_from (more n acc lo hi) s
]
decode_from (more zero acc lo hi) (b ∷ s) =
    let rest = decode_from start s in
    if leb lo b && leb b hi then emit (acc * 64 + b % 64) rest else none
decode_from (more (suc n) acc lo hi) (b ∷ s) =
    let rest = decode_from (more n (acc * 64 + b % 64) 0x80 0xbf) s in
    if leb lo b && leb b hi then rest else none

unfoldable pub utf8_decode : List ℕ → Option Text
unfolding lead decode_from
utf8_decode bytes = decode_from start bytes

-- `len(text.encode("utf-8"))`.
abbrev char_bytes : ℕ → ℕ
char_bytes c = if ltb c 0x80 then 1 else if ltb c 0x800 then 2 else if ltb c 0x10000 then 3 else 4

unfoldable pub utf8_length : Text → ℕ
utf8_length [] = 0
utf8_length (c ∷ s) = char_bytes c + utf8_length s
