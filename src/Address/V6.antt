-- ===== src/Address/V6.antt =====
-- `IPv6Address` without its scope: eight hextets, `::` for a run of zeros, and an IPv4 tail.
use atrium_ddns.Prelude.{
  ℕ, ◌+◌, ◌-◌, ◌*◌, ◌/◌, ◌%◌, Bool, ◌&&◌, ◌||◌, not, Option, none, some, List, [], ◌∷◌, ◌++◌, map,
  ltb, leb, ◌==◌, length, take, drop, replicate, all, ◌>>=◌, if◌then◌else◌,
}
use atrium_ddns.Text.{
  Text, codes, text_eq, is_empty, has_char, last_part, split_on, join, hexadecimal,
}
use atrium_ddns.Address.V4.{Octets, parse_v4, print_v4}

is_hex : ℕ → Bool
is_hex c = (leb b'0' c && leb c b'9') || (leb b'a' c && leb c b'f') || (leb b'A' c && leb c b'F')

hex_value : ℕ → ℕ
hex_value c = if leb c b'9' then c - b'0' else if leb c b'F' then c - 55 else c - 87

from_hexadecimal : ℕ → Text → ℕ
unfolding hex_value
from_hexadecimal n [] = n
from_hexadecimal n (c ∷ s) = from_hexadecimal (n * 16 + hex_value c) s

-- `_parse_hextet`; `int('', 16)` raises, so the empty text is refused too.
unfoldable pub parse_hextet : Text → Option ℕ
unfolding is_hex from_hexadecimal
parse_hextet s =
    if not (all is_hex s) || ltb 4 (length s) || is_empty s
    then none
    else some (from_hexadecimal 0 s)

parse_hextets : List Text → Option (List ℕ)
unfolding parse_hextet
parse_hextets [] = some []
parse_hextets (p ∷ ps) = do n ← parse_hextet p; rest ← parse_hextets ps; some (n ∷ rest)

abbrev but_last : List Text → List Text
but_last [] = []
but_last (p ∷ []) = []
but_last (p ∷ q ∷ ps) = p ∷ but_last (q ∷ ps)

-- An IPv4 tail is written out as two hextets.
expand_tail : List Text → Option (List Text)
unfolding parse_v4 hexadecimal
expand_tail parts =
    if has_char b'.' (last_part parts)
    then (do
      o ← parse_v4 (last_part parts)
      some (
          but_last parts
          ++ hexadecimal (o.first * 256 + o.second) ∷ hexadecimal (o.third * 256 + o.fourth) ∷ []))
    else some parts

-- The places of the empty parts that are neither the first nor the last, counted from `i`.
gaps : ℕ → List Text → List ℕ
gaps i [] = []
gaps i (p ∷ []) = []
gaps i (p ∷ q ∷ ps) = let rest = gaps (i + 1) (q ∷ ps) in if is_empty p then i ∷ rest else rest

abbrev inner_gaps : List Text → List ℕ
inner_gaps [] = []
inner_gaps (p ∷ ps) = gaps 1 ps

abbrev first_part : List Text → Text
first_part [] = []
first_part (p ∷ ps) = p

-- The parts before and after a `::` at place `i`. An empty first or last part must belong to it.
around_gap : List Text → ℕ → Option (List ℕ)
unfolding parse_hextets
around_gap parts i =
    let hi = if is_empty (first_part parts) then i - 1 else i in
    let after = length parts - i - 1 in
    let lo = if is_empty (last_part parts) then after - 1 else after in
    if (is_empty (first_part parts) && ltb 0 hi)
      || (is_empty (last_part parts) && ltb 0 lo)
      || leb 8 (hi + lo)
    then none
    else do
      high ← parse_hextets (take hi parts)
      low ← parse_hextets (drop (length parts - lo) parts)
      some (high ++ replicate (8 - (hi + lo)) 0 ++ low)

-- No `::`: exactly eight parts, the first and the last not empty.
without_gap : List Text → Option (List ℕ)
unfolding parse_hextets
without_gap parts =
    if not (length parts == 8) || is_empty (first_part parts) || is_empty (last_part parts)
    then none
    else parse_hextets parts

by_gaps : List Text → List ℕ → Option (List ℕ)
unfolding around_gap without_gap
by_gaps parts [] = without_gap parts
by_gaps parts (i ∷ []) = around_gap parts i
by_gaps parts (i ∷ j ∷ rest) = none

-- `_ip_int_from_string`, with the hextets in place of the number.
unfoldable pub parse_v6 : Text → Option (List ℕ)
unfolding split_on expand_tail gaps by_gaps
parse_v6 s =
    let parts = split_on b':' s in
    if is_empty s || ltb (length parts) 3 then none else do
      expanded ← expand_tail parts
      if ltb 9 (length expanded) then none else by_gaps expanded (inner_gaps expanded)

-- The run of "0" hextets that is being read, and the best so far: where it starts, how long it is.
record Runs : Type 0 where
  best_start : ℕ
  best_len : ℕ
  start : Option ℕ
  len : ℕ

abbrev or_start : Option ℕ → ℕ → ℕ
or_start none i = i
or_start (some s) i = s

note_hextet : Runs → ℕ → Text → Runs
note_hextet r i h =
    let begin = or_start r.start i in
    let longer = r.len + 1 in
    if text_eq h (codes "0")
    then (if ltb r.best_len longer
        then record { best_start = begin; best_len = longer; start = some begin; len = longer }
        else record r { start = some begin; len = longer })
    else record r { start = none; len = 0 }

scan : Runs → ℕ → List Text → Runs
unfolding note_hextet
scan r i [] = r
scan r i (h ∷ hs) = scan (note_hextet r i h) (i + 1) hs

-- `_compress_hextets`.
compress : List Text → List Text
unfolding scan
compress hs =
    let r = scan (record { best_start = 0; best_len = 0; start = none; len = 0 }) 0 hs in
    let stop = r.best_start + r.best_len in
    if ltb 1 r.best_len
    then (if r.best_start == 0 then [] ∷ [] else [])
      ++ take r.best_start hs
      ++ [] ∷ drop stop hs
      ++ (if stop == length hs then [] ∷ [] else [])
    else hs

-- `ipv4_mapped`: the address in `::ffff:0:0/96`.
abbrev mapped : List ℕ → Option Octets
mapped (a ∷ b ∷ c ∷ d ∷ e ∷ f ∷ g ∷ h ∷ []) =
    if a == 0 && b == 0 && c == 0 && d == 0 && e == 0 && f == 0xffff
    then some (record { first = g / 256; second = g % 256; third = h / 256; fourth = h % 256 })
    else none
mapped _ = none

abbrev print_mapped : Option Octets → Text → Text
print_mapped none plain = plain
print_mapped (some o) plain = codes "::ffff:" ++ print_v4 o

-- `str` without the scope: an IPv4-mapped address keeps its dotted tail.
unfoldable pub print_v6 : List ℕ → Text
unfolding compress hexadecimal join print_v4
print_v6 hextets = print_mapped (mapped hextets) (join b':' (compress (map hexadecimal hextets)))
