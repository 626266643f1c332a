-- ===== src/Text/Search.antt =====
-- `startswith`, `endswith` and `rfind`.
use atrium_ddns.Prelude.{
  zero, suc, append-nil, ℕ, ◌+◌, ◌-◌, Bool, true, false, ◌&&◌, Option, none, some, [], ◌∷◌, ◌==◌,
  leb, length, drop, if◌then◌else◌, ◌++◌, ◌<◌, ◌≡◌, arith, ==_iff, refl, suc,
}
use atrium_ddns.Text.Basic.{Text, text_eq}

unfoldable pub starts_with : Text → Text → Bool
starts_with [] s = true
starts_with (x ∷ p) [] = false
starts_with (x ∷ p) (y ∷ s) = x == y && starts_with p s

-- `s.endswith(p)`.
unfoldable pub ends_with : Text → Text → Bool
ends_with p s = leb (length p) (length s) && text_eq (drop (length s - length p) s) p

abbrev later_or : Option ℕ → Bool → Option ℕ
later_or (some i) here = some (i + 1)
later_or none here = if here then some 0 else none

-- `s.rfind(p)`: where the last occurrence of `p` begins. `none` is Python's -1.
unfoldable pub rfind : Text → Text → Option ℕ
rfind [] p = if starts_with p [] then some 0 else none
rfind (x ∷ s) p = later_or (rfind s p) (starts_with p (x ∷ s))

-- A text that starts with a pattern is the pattern and what is left behind it.
pub starts_with-split : (p s : Text) → starts_with p s ≡ true → s ≡ p ++ drop (length p) s
unfolding starts_with
starts_with-split [] s h = refl
starts_with-split (x ∷ p) [] h = cc
starts_with-split (x ∷ p) (y ∷ s) h =
    cc (starts_with-split p s (ground arith), (==_iff x y).0 (ground arith))

pub starts_with-append : (p s : Text) → starts_with p (p ++ s) ≡ true
unfolding starts_with
starts_with-append [] s = refl
starts_with-append (x ∷ p) s = ground (arith, starts_with-append p s)

starts_with-long : (p s : Text) → length s < length p → starts_with p s ≡ false
unfolding starts_with
starts_with-long [] s h = absurd (omega arith)
starts_with-long (x ∷ p) [] h = refl
starts_with-long (x ∷ p) (y ∷ s) h = ground (arith, starts_with-long p s)

-- A pattern that is longer than the text is not found.
pub rfind-long : (s p : Text) → length s < length p → rfind s p ≡ none
unfolding rfind
rfind-long [] p h = ground (arith, starts_with-long p [])
rfind-long (x ∷ s) p h = ground (arith, starts_with-long p (x ∷ s), rfind-long s p)

starts_self : (p : Text) → starts_with p p ≡ true
starts_self p = rw append-nil at (starts_with-append p [])

rfind_whole : (p : Text) → rfind p p ≡ some 0
unfolding rfind
rfind_whole [] = ground (arith, starts_with-append [] [])
rfind_whole (x ∷ p) = rw (rfind-long p (x ∷ p) (omega arith)) (rw (starts_self (x ∷ p)))

-- A suffix is found where it begins, also if it occurs before.
pub rfind_suffix : (s p : Text) → rfind (s ++ p) p ≡ some (length s)
unfolding rfind
rfind_suffix [] p = rfind_whole p
rfind_suffix (x ∷ s) p = rw (rfind_suffix s p) (ground arith)

-- What is found stands where it was found.
pub rfind-some : (s p : Text) (i : ℕ) → rfind s p ≡ some i → starts_with p (drop i s) ≡ true
unfolding rfind
rfind-some [] p zero h = ground arith
rfind-some [] p (suc i) h = ground arith
rfind-some (x ∷ s) p zero h = ground (arith, rfind-some s p)
rfind-some (x ∷ s) p (suc i) h = rfind-some s p i (ground arith)
