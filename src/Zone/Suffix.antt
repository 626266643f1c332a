-- ===== src/Zone/Suffix.antt =====
-- Where lower-casing keeps lengths, `zone_contains` tests for a suffix, whatever the case.
use atrium_ddns.Prelude.{
  ◌≡◌, ◌↔◌, refl, false, true, some, [], ◌++◌, arith, length, take, drop, Option-cases,
  length-append, ℕ, ◌∷◌, ap, inl, suc, ◌-◌, ◌≤◌, inr, zero, ◌+◌, ◌∙◌, append-nil,
}
use atrium_ddns.Text.{
  Text, has_char, lower, rfind, length-lower, rfind_suffix, rfind-some, starts_with-split,
  take-append-drop,
}
use atrium_ddns.Zone.{zone_contains}

length-drop : (i : ℕ) (s : Text) → length (drop i s) ≡ length s - i
length-drop zero s = omega arith
length-drop (suc i) [] = omega arith
length-drop (suc i) (c ∷ s) = omega (arith, length-drop i s)

drop-eq-nil : (n : ℕ) (s : Text) → length s ≤ n → drop n s ≡ []
drop-eq-nil zero [] h = refl
drop-eq-nil zero (c ∷ s) h = absurd (omega arith)
drop-eq-nil (suc n) [] h = refl
drop-eq-nil (suc n) (c ∷ s) h = drop-eq-nil n s (omega arith)

-- A match that ends the text is a suffix.
suffix_of_rfind :
    (s p : Text) (i : ℕ) → rfind s p ≡ some i → i + length p ≡ length s → s ≡ take i s ++ p
suffix_of_rfind s p i found ends =
    let front = starts_with-split p (drop i s) (rfind-some s p i found) in
    let nothing = drop-eq-nil (length p) (drop i s) (omega (arith, length-drop i s)) in
    take-append-drop i s
    ∙ ap (λ (t : Text). take i s ++ t) (front ∙ ap (λ (t : Text). p ++ t) nothing ∙ append-nil p)

module _ (zone hostname : Text) (zone_plain : has_char 0x130 zone ≡ false)
    (plain : has_char 0x130 hostname ≡ false) where
  contains_sound :
      zone_contains zone hostname ≡ true → (pre : Text) × (lower hostname ≡ pre ++ lower zone)
  unfolding zone_contains
  contains_sound h = elim (Option-cases (rfind (lower hostname) (lower zone))) [
    | inl e ↦ absurd (ground arith)
    | inr (i, e) ↦ (
      take i (lower hostname),
      suffix_of_rfind (lower hostname) (lower zone) i e
          (ground (arith, length-lower zone zone_plain, length-lower hostname plain)),
    )
  ]

  contains_complete :
      (pre : Text) → lower hostname ≡ pre ++ lower zone → zone_contains zone hostname ≡ true
  unfolding zone_contains
  contains_complete pre e =
      rw (e, rfind_suffix pre (lower zone))
        (ground (
          arith,
          length-lower zone zone_plain,
          length-lower hostname plain,
          length-append pre (lower zone),
          ap length e,
        ))

  -- For texts without U+0130, a zone contains a name exactly when the lower-cased name ends in the
  -- lower-cased zone. No dot is asked for in front of the zone.
  pub zone_contains_iff :
      (zone_contains zone hostname ≡ true) ↔ ((pre : Text) × (lower hostname ≡ pre ++ lower zone))
  zone_contains_iff = (contains_sound, λ s. contains_complete s.0 s.1)
