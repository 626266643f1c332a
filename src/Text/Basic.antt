-- ===== src/Text/Basic.antt =====
-- The type of texts, literals, equality and slices.
use Prim.Native.Char.{code}
use Prim.Native.String.{String}
use atrium_ddns.Prelude.{
  ℕ, ◌≡◌, refl, ◌↔◌, Bool, true, false, ◌&&◌, List, [], ◌∷◌, arith, ◌==◌, Option, none, some, take,
  ◌++◌, drop, suc, ap, zero,
}

abbrev pub Text : Type 0
Text = List ℕ

-- The code points of a literal.
abbrev pub codes : String → Text
codes String.[] = []
codes (String.◌∷◌ c s) = code c ∷ codes s

-- `a == b` on texts.
abbrev pub text_eq : Text → Text → Bool
text_eq [] [] = true
text_eq [] (y ∷ ys) = false
text_eq (x ∷ xs) [] = false
text_eq (x ∷ xs) (y ∷ ys) = x == y && text_eq xs ys

pub text_eq_sound : (a b : Text) → text_eq a b ≡ true → a ≡ b
text_eq_sound [] [] h = refl
text_eq_sound [] (y ∷ ys) h = cc
text_eq_sound (x ∷ xs) [] h = cc
text_eq_sound (x ∷ xs) (y ∷ ys) h = ground (arith, text_eq_sound xs ys)

pub text_eq_refl : (a : Text) → text_eq a a ≡ true
text_eq_refl [] = refl
text_eq_refl (x ∷ xs) = ground (arith, text_eq_refl xs)

pub text_eq_iff : (a b : Text) → (text_eq a b ≡ true) ↔ (a ≡ b)
text_eq_iff a b = (text_eq_sound a b, λ e. rw e (text_eq_refl b))

-- `not s`.
abbrev pub is_empty : Text → Bool
is_empty [] = true
is_empty (x ∷ xs) = false

-- `text in list`.
abbrev pub contains : List Text → Text → Bool
contains [] a = false
contains (x ∷ xs) a = elim (text_eq x a) [ true ↦ true | false ↦ contains xs a ]

-- `c in text`, for one character.
abbrev pub has_char : ℕ → Text → Bool
has_char c [] = false
has_char c (x ∷ xs) = elim (x == c) [ true ↦ true | false ↦ has_char c xs ]

-- `s[-1]` and `s[:-1]`.
abbrev pub last_char : Text → Option ℕ
last_char [] = none
last_char (c ∷ []) = some c
last_char (c ∷ d ∷ s) = last_char (d ∷ s)

abbrev pub but_last_char : Text → Text
but_last_char [] = []
but_last_char (c ∷ []) = []
but_last_char (c ∷ d ∷ s) = c ∷ but_last_char (d ∷ s)

-- A text is its first part and the rest.
pub take-append-drop : (i : ℕ) (s : Text) → s ≡ take i s ++ drop i s
take-append-drop zero s = refl
take-append-drop (suc i) [] = refl
take-append-drop (suc i) (c ∷ s) = ap (λ (t : Text). c ∷ t) (take-append-drop i s)
