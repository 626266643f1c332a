-- ===== src/Text/Split.antt =====
-- `s.split(c)`, `c.join(parts)` and `s.partition(c)` at one character.
use atrium_ddns.Prelude.{
  ==_refl, ℕ, ◌≡◌, refl, ap, ◌∙◌, Bool, true, false, inl, inr, List, [], ◌∷◌, ◌++◌, ◌==◌, ==_iff,
  Bool-cases, if◌then◌else◌, All, arith,
}
use atrium_ddns.Text.Basic.{Text, has_char}

abbrev pub push : ℕ → List Text → List Text
push x [] = (x ∷ []) ∷ []
push x (p ∷ ps) = (x ∷ p) ∷ ps

unfoldable pub split_on : ℕ → Text → List Text
split_on c [] = [] ∷ []
split_on c (x ∷ s) = let rest = split_on c s in if x == c then [] ∷ rest else push x rest

unfoldable pub join : ℕ → List Text → Text
join c [] = []
join c (p ∷ []) = p
join c (p ∷ q ∷ ps) = p ++ c ∷ join c (q ∷ ps)

-- `head, sep, tail = s.partition(c)`: the flag says whether the separator was found.
unfoldable pub partition : ℕ → Text → Text × Bool × Text
partition c [] = ([], false, [])
partition c (x ∷ s) =
    let rest = partition c s in if x == c then ([], true, s) else (x ∷ rest.0, rest.1, rest.2)

-- `s.split(c)[-1]`.
abbrev pub last_part : List Text → Text
last_part [] = []
last_part (p ∷ []) = p
last_part (p ∷ q ∷ ps) = last_part (q ∷ ps)

unfoldable pub split_last : ℕ → Text → Text
unfolding split_on
split_last c s = last_part (split_on c s)

pub split_on-ne-nil : (c : ℕ) (s : Text) → (p : Text) × (ps : List Text) × (split_on c s ≡ p ∷ ps)
unfolding split_on
split_on-ne-nil c [] = ([], [], refl)
split_on-ne-nil c (x ∷ s) = elim (Bool-cases (x == c)) [
  | inl e ↦ ([], split_on c s, rw e)
  | inr e ↦ let (p, ps, eq) = split_on-ne-nil c s in (x ∷ p, ps, rw (e, eq))
]

join-push : (c x : ℕ) (p : Text) (ps : List Text) → join c (push x (p ∷ ps)) ≡ x ∷ join c (p ∷ ps)
unfolding join
join-push c x p [] = refl
join-push c x p (q ∷ ps) = refl

-- Splitting loses nothing: the parts joined by the separator are the text.
pub join-split_on : (c : ℕ) (s : Text) → join c (split_on c s) ≡ s
unfolding split_on join
join-split_on c [] = refl
join-split_on c (x ∷ s) =
    let (p, ps, eq) = split_on-ne-nil c s in
    let ih : join c (p ∷ ps) ≡ s = rw eq at (join-split_on c s) in
    elim (Bool-cases (x == c)) [
      | inl e ↦ rw (e, eq) (cc (ih, (==_iff x c).0 e))
      | inr e ↦ rw (e, eq) (join-push c x p ps ∙ ap (λ t. x ∷ t) ih)
    ]

-- A text without the separator is one part, and ends where the separator first stands.
pub split_on-append :
    (c : ℕ) (p s : Text) → has_char c p ≡ false → split_on c (p ++ c ∷ s) ≡ p ∷ split_on c s
unfolding split_on
split_on-append c [] s h = rw (==_refl c)
split_on-append c (x ∷ p) s h = elim (Bool-cases (x == c)) [
  | inl e ↦ absurd (ground arith)
  | inr e ↦ rw (e, split_on-append c p s (ground arith))
]

pub split_on_whole : (c : ℕ) (p : Text) → has_char c p ≡ false → split_on c p ≡ p ∷ []
unfolding split_on
split_on_whole c [] h = refl
split_on_whole c (x ∷ p) h = elim (Bool-cases (x == c)) [
  | inl e ↦ absurd (ground arith)
  | inr e ↦ rw (e, split_on_whole c p (ground arith))
]

-- Parts without the separator are found again in their join.
pub split_on-join :
    (c : ℕ) (p : Text) (ps : List Text)
    → has_char c p ≡ false
    → All (λ q. has_char c q ≡ false) ps
    → split_on c (join c (p ∷ ps)) ≡ p ∷ ps
unfolding join
split_on-join c p [] hp hs = split_on_whole c p hp
split_on-join c p (q ∷ ps) hp hs =
    rw (split_on-append c p (join c (q ∷ ps)) hp, split_on-join c q ps hs.0 hs.1)

pub partition-append :
    (c : ℕ) (p s : Text) → has_char c p ≡ false → partition c (p ++ c ∷ s) ≡ (p, true, s)
unfolding partition
partition-append c [] s h = rw (==_refl c)
partition-append c (x ∷ p) s h = elim (Bool-cases (x == c)) [
  | inl e ↦ absurd (ground arith)
  | inr e ↦ rw (e, partition-append c p s (ground arith))
]
