-- ===== src/Address/RoundTrip.antt =====
-- What is printed is read back.
use atrium_ddns.Prelude.{
  ℕ, ◌<◌, ◌≡◌, refl, Bool, true, false, ◌&&◌, not, none, some, arith, ◌==◌, all_below,
  all_below_sound, ◌∷◌, [],
}
use atrium_ddns.Text.{has_char, decimal, split_on-join}
use atrium_ddns.Address.V4.{
  Octets, IsOctets, parse_octet, parse_octets, parse_v4, print_v4, parse_v4_lem, print_v4_lem,
}

-- What an octet's digits are, as a test.
octet_digits : ℕ → Bool
octet_digits n =
    elim (parse_octet (decimal n)) [ none ↦ false | some m ↦ m == n ]
    && not (has_char b'.' (decimal n))
    && not (has_char b'/' (decimal n))

octet_table : all_below 256 octet_digits ≡ true
unfolding octet_digits parse_octet decimal
octet_table = refl

record PrintsOctet (n : ℕ) : Type 0 where
  reads : parse_octet (decimal n) ≡ some n
  no_dot : has_char b'.' (decimal n) ≡ false
  no_slash : has_char b'/' (decimal n) ≡ false

octet : (n : ℕ) → n < 256 → PrintsOctet n
unfolding octet_digits
octet n h =
    let t : octet_digits n ≡ true = all_below_sound 256 octet_digits n octet_table h in
    record { reads = ground arith; no_dot = ground arith; no_slash = ground arith }

-- An IPv4 address is read back from its dotted form.
pub parse_v4-print_v4 : (o : Octets) → IsOctets o → parse_v4 (print_v4 o) ≡ some o
unfolding parse_octets
parse_v4-print_v4 o h =
    let p = octet o.first h.first in
    let q = octet o.second h.second in
    let r = octet o.third h.third in
    let s = octet o.fourth h.fourth in
    rw (parse_v4_lem, print_v4_lem)
      (rw
        (split_on-join b'.' (decimal o.first)
          (decimal o.second ∷ decimal o.third ∷ decimal o.fourth ∷ []) p.no_dot
          (q.no_dot, (r.no_dot, (s.no_dot, tt))))
        (rw (p.reads, q.reads, r.reads, s.reads)))
