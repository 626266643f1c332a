-- ===== src/Text/Print.antt =====
-- `str(n)` and `'%x' % n` for a natural number.
use atrium_ddns.Prelude.{
  ℕ, zero, suc, ◌+◌, ◌/◌, ◌%◌, [], ◌∷◌, ltb, if◌then◌else◌, length, ◌≢◌, ◌≤◌, arith, Bool-cases,
  ◌≡◌, inl, subst, ap, inr,
}
use atrium_ddns.Text.Basic.{Text}

abbrev digit : ℕ → ℕ
digit d = if ltb d 10 then b'0' + d else 87 + d

-- The digits in a base, the last first; `n + 1` digits are enough for `n` in a base above 1.
print_fuel : ℕ → ℕ → ℕ → Text → Text
print_fuel zero base n acc = acc
print_fuel (suc f) base n acc =
    let longer = print_fuel f base (n / base) (digit (n % base) ∷ acc) in
    if ltb n base then digit n ∷ acc else longer

unfoldable pub decimal : ℕ → Text
unfolding print_fuel
decimal n = print_fuel (n + 1) 10 n []

unfoldable pub hexadecimal : ℕ → Text
unfolding print_fuel
hexadecimal n = print_fuel (n + 1) 16 n []

print_fuel-length : (f base n : ℕ) (acc : Text) → length acc ≤ length (print_fuel f base n acc)
unfolding print_fuel
print_fuel-length zero base n acc = omega arith
print_fuel-length (suc f) base n acc =
    ground (arith, print_fuel-length f base (n / base) (digit (n % base) ∷ acc))

print_fuel_longer :
    (f base n : ℕ) (acc : Text) → suc (length acc) ≤ length (print_fuel (suc f) base n acc)
unfolding print_fuel
print_fuel_longer f base n acc =
    ground (arith, print_fuel-length f base (n / base) (digit (n % base) ∷ acc))

abbrev first_char : Text → ℕ
first_char [] = 0
first_char (c ∷ s) = c

print_fuel-zero : (f n : ℕ) → print_fuel (suc (suc f)) 10 (suc n) [] ≢ b'0' ∷ []
unfolding print_fuel
print_fuel-zero f n h = elim (Bool-cases (ltb (suc n) 10)) [
  | inl e ↦
      let first : 48 + suc n ≡ 48 = ap first_char (rw (e, print_fuel) at h) in omega (arith, first)
  | inr e ↦
      let long = print_fuel_longer f 10 (suc n / 10) (digit (suc n % 10) ∷ []) in
      let short : length (print_fuel (suc f) 10 (suc n / 10) (digit (suc n % 10) ∷ [])) ≡ 1 =
        ap length (rw (e, print_fuel) at h) in
      omega (arith, long, short)
]

-- Only zero is printed as "0".
pub decimal-zero : (n : ℕ) → decimal (suc n) ≢ b'0' ∷ []
unfolding decimal
decimal-zero n h =
    let two : suc n + 1 ≡ suc (suc n) = omega arith in
    print_fuel-zero n n (subst (λ f. print_fuel f 10 (suc n) [] ≡ b'0' ∷ []) two h)
