-- ===== src/Text/Case.antt =====
-- `str.lower` and `str.strip`. Lower-casing is exact on the code points that a host name can hold:
-- the ASCII letters, and the four others that the label pattern takes for letters (U+0130, U+0131,
-- U+017F and U+212A). Other cased letters are left alone; no validated name holds one.
use atrium_ddns.Prelude.{
  ℕ, ◌+◌, Bool, true, false, ◌&&◌, ◌||◌, [], ◌∷◌, ◌++◌, ◌==◌, leb, if◌then◌else◌, length, ◌≡◌,
  arith, sym, ◌<◌, ◌≤◌, append_assoc, length-append, refl, All, ◌∙◌, ap,
}
use atrium_ddns.Text.Basic.{Text, has_char}

-- U+0130 is the one code point whose lower case is two: `i` and a combining dot above.
unfoldable pub lower_char : ℕ → Text
lower_char c =
    if leb b'A' c && leb c b'Z'
    then (c + 32) ∷ []
    else if c == 0x130
    then b'i' ∷ 0x307 ∷ []
    else if c == 0x212a
    then b'k' ∷ []
    else c ∷ []

unfoldable pub lower : Text → Text
lower [] = []
lower (c ∷ s) = lower_char c ++ lower s

-- What `str.strip` removes.
unfoldable pub is_space : ℕ → Bool
is_space c =
    (leb 9 c && leb c 13)
    || (leb 28 c && leb c 32)
    || c == 0x85
    || c == 0xa0
    || c == 0x1680
    || (leb 0x2000 c && leb c 0x200a)
    || c == 0x2028
    || c == 0x2029
    || c == 0x202f
    || c == 0x205f
    || c == 0x3000

strip_left : Text → Text
strip_left [] = []
strip_left (c ∷ s) = elim (is_space c) [ true ↦ strip_left s | false ↦ c ∷ s ]

drop_space : ℕ → Text → Text
drop_space c [] = if is_space c then [] else c ∷ []
drop_space c (d ∷ s) = c ∷ d ∷ s

strip_right : Text → Text
strip_right [] = []
strip_right (c ∷ s) = drop_space c (strip_right s)

unfoldable pub strip : Text → Text
unfolding is_space drop_space strip_left strip_right
strip s = strip_right (strip_left s)

pub lower-append : (s t : Text) → lower (s ++ t) ≡ lower s ++ lower t
unfolding lower
lower-append [] t = refl
lower-append (c ∷ s) t =
    rw (lower-append s t) (sym (append_assoc (lower_char c) (lower s) (lower t)))

-- Lower-casing lengthens a text exactly where it holds U+0130.
lower_char_lengths : (c : ℕ) → length (lower_char c) ≡ (if c == 0x130 then 2 else 1)
unfolding lower_char
lower_char_lengths c = ground arith

pub length-lower : (s : Text) → has_char 0x130 s ≡ false → length (lower s) ≡ length s
unfolding lower
length-lower [] h = refl
length-lower (c ∷ s) h =
    ground (arith, length-append (lower_char c) (lower s), lower_char_lengths c, length-lower s)

pub length-le-lower : (s : Text) → length s ≤ length (lower s)
unfolding lower
length-le-lower [] = omega arith
length-le-lower (c ∷ s) =
    ground (arith, length-append (lower_char c) (lower s), lower_char_lengths c, length-le-lower s)

pub length-lt-lower : (s : Text) → has_char 0x130 s ≡ true → length s < length (lower s)
unfolding lower
length-lt-lower [] h = cc
length-lt-lower (c ∷ s) h = ground (
  arith,
  length-append (lower_char c) (lower s),
  lower_char_lengths c,
  length-lt-lower s,
  length-le-lower s,
)

-- A text without white space is stripped of nothing.
strip_left_plain : (s : Text) → All (λ c. is_space c ≡ false) s → strip_left s ≡ s
unfolding strip_left
strip_left_plain [] h = refl
strip_left_plain (c ∷ s) h = rw (h.0, strip_left)

strip_right_plain : (s : Text) → All (λ c. is_space c ≡ false) s → strip_right s ≡ s
unfolding strip_right drop_space
strip_right_plain [] h = refl
strip_right_plain (c ∷ []) h = rw h.0
strip_right_plain (c ∷ d ∷ s) h = rw (strip_right_plain (d ∷ s) h.1)

strip_lem : (s : Text) → strip s ≡ strip_right (strip_left s)
unfolding strip
strip_lem s = refl

pub strip_plain : (s : Text) → All (λ c. is_space c ≡ false) s → strip s ≡ s
strip_plain s h = strip_lem s ∙ ap strip_right (strip_left_plain s h) ∙ strip_right_plain s h
