-- ===== src/Address/V4.antt =====
-- `IPv4Address`: four decimal octets, strict about leading zeros.
use atrium_ddns.Prelude.{
  refl, ℕ, ◌+◌, ◌-◌, ◌*◌, ◌<◌, Bool, false, ◌==◌, ◌&&◌, ◌||◌, not, Option, none, some, List, [],
  ◌∷◌, ltb, leb, length, all, ◌>>=◌, if◌then◌else◌, ◌≡◌,
}
use atrium_ddns.Text.{Text, text_eq, codes, is_empty, split_on, join, decimal}

pub record Octets : Type 0 where
  pub first : ℕ
  pub second : ℕ
  pub third : ℕ
  pub fourth : ℕ

pub record IsOctets (o : Octets) : Type 0 where
  pub first : o.first < 256
  pub second : o.second < 256
  pub third : o.third < 256
  pub fourth : o.fourth < 256

is_digit : ℕ → Bool
is_digit c = leb b'0' c && leb c b'9'

from_decimal : ℕ → Text → ℕ
from_decimal n [] = n
from_decimal n (c ∷ s) = from_decimal (n * 10 + (c - b'0')) s

-- The first character of a text that is not empty.
abbrev leads_with_zero : Text → Bool
leads_with_zero [] = false
leads_with_zero (c ∷ s) = c == b'0'

-- `_parse_octet`.
unfoldable pub parse_octet : Text → Option ℕ
unfolding is_digit from_decimal
parse_octet s =
    if is_empty s || not (all is_digit s)
    then none
    else if ltb 3 (length s)
    then none
    else if not (text_eq s (codes "0")) && leads_with_zero s
    then none
    else let n = from_decimal 0 s in if ltb 255 n then none else some n

unfoldable pub parse_octets : List Text → Option Octets
parse_octets (a ∷ b ∷ c ∷ d ∷ []) = do
  w ← parse_octet a
  x ← parse_octet b
  y ← parse_octet c
  z ← parse_octet d
  some (record { first = w; second = x; third = y; fourth = z })
parse_octets _ = none

unfoldable pub parse_v4 : Text → Option Octets
unfolding parse_octets parse_octet split_on
parse_v4 s = parse_octets (split_on b'.' s)

abbrev pub printed_octets : Octets → List Text
printed_octets o = decimal o.first ∷ decimal o.second ∷ decimal o.third ∷ decimal o.fourth ∷ []

unfoldable pub print_v4 : Octets → Text
unfolding decimal join
print_v4 o = join b'.' (printed_octets o)

pub parse_v4_lem : (s : Text) → parse_v4 s ≡ parse_octets (split_on b'.' s)
unfolding parse_v4
parse_v4_lem s = refl

pub print_v4_lem : (o : Octets) → print_v4 o ≡ join b'.' (printed_octets o)
unfolding print_v4
print_v4_lem o = refl
