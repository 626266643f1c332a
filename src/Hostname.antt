-- ===== src/Hostname.antt =====
-- Host name syntax: `_LABEL` and `BaseProvider.isvalidhostname`
-- (backend/src/atrium_ddns/providers/base.py), and `split_hostnames` (router_nic.py).
pub mod Labels
pub mod Elements
use atrium_ddns.Prelude.{
  ℕ, ◌+◌, Bool, true, false, ◌&&◌, ◌||◌, not, Option, none, some, List, [], ◌∷◌, ◌==◌, ltb, leb,
  length, all, if◌then◌else◌,
}
use atrium_ddns.Text.{Text, split_on, contains, last_char, but_last_char}

-- The zero of each run of ten decimal digits (category Nd): what `\d` matches in a `str` pattern.
abbrev digit_zeros : List ℕ
digit_zeros =
    0x30 ∷ 0x660 ∷ 0x6f0 ∷ 0x7c0 ∷ 0x966 ∷ 0x9e6 ∷ 0xa66 ∷ 0xae6 ∷ 0xb66 ∷ 0xbe6 ∷ 0xc66 ∷ 0xce6
    ∷ 0xd66 ∷ 0xde6 ∷ 0xe50 ∷ 0xed0 ∷ 0xf20 ∷ 0x1040 ∷ 0x1090 ∷ 0x17e0 ∷ 0x1810 ∷ 0x1946 ∷ 0x19d0
    ∷ 0x1a80 ∷ 0x1a90 ∷ 0x1b50 ∷ 0x1bb0 ∷ 0x1c40 ∷ 0x1c50 ∷ 0xa620 ∷ 0xa8d0 ∷ 0xa900 ∷ 0xa9d0
    ∷ 0xa9f0 ∷ 0xaa50 ∷ 0xabf0 ∷ 0xff10 ∷ 0x104a0 ∷ 0x10d30 ∷ 0x11066 ∷ 0x110f0 ∷ 0x11136 ∷ 0x111d0
    ∷ 0x112f0 ∷ 0x11450 ∷ 0x114d0 ∷ 0x11650 ∷ 0x116c0 ∷ 0x11730 ∷ 0x118e0 ∷ 0x11950 ∷ 0x11c50
    ∷ 0x11d50 ∷ 0x11da0 ∷ 0x11f50 ∷ 0x16a60 ∷ 0x16ac0 ∷ 0x16b50 ∷ 0x1d7ce ∷ 0x1d7d8 ∷ 0x1d7e2
    ∷ 0x1d7ec ∷ 0x1d7f6 ∷ 0x1e140 ∷ 0x1e2f0 ∷ 0x1e4f0 ∷ 0x1e950 ∷ 0x1fbf0 ∷ []

in_digit_run : ℕ → List ℕ → Bool
in_digit_run c [] = false
in_digit_run c (z ∷ zs) = elim (leb z c && leb c (z + 9)) [
  | true ↦ true
  | false ↦ in_digit_run c zs
]

-- `[A-Z]` under `IGNORECASE`: the ASCII letters, and the four code points whose case folds to one.
unfoldable pub is_letter : ℕ → Bool
is_letter c =
    (leb b'A' c && leb c b'Z')
    || (leb b'a' c && leb c b'z')
    || c == 0x130
    || c == 0x131
    || c == 0x17f
    || c == 0x212a

-- `[A-Z\d-]` under `IGNORECASE`.
unfoldable pub is_label_char : ℕ → Bool
unfolding is_letter in_digit_run
is_label_char c = is_letter c || in_digit_run c digit_zeros || c == b'-'

-- The longest prefix of label characters, and the rest.
unfoldable pub label_run : Text → Text × Text
label_run [] = ([], [])
label_run (c ∷ s) =
    let rest = label_run s in if is_label_char c then (c ∷ rest.0, rest.1) else ([], c ∷ s)

abbrev first_is : ℕ → Text → Bool
first_is d [] = false
first_is d (c ∷ s) = c == d

abbrev last_is : ℕ → Text → Bool
last_is d s = elim (last_char s) [ none ↦ false | some c ↦ c == d ]

-- `$`: the end, or before one newline at the end.
abbrev at_end : Text → Bool
at_end [] = true
at_end (c ∷ []) = c == 10
at_end (c ∷ d ∷ s) = false

-- `_LABEL.match(label)`. The `$` can only stand where the run of label characters ends, so the
-- pattern matches exactly if that whole run has 1 to 63 characters and the two dash tests pass.
unfoldable pub label_matches : Text → Bool
label_matches s =
    let run = label_run s in
    not (first_is b'-' s)
    && leb 1 (length run.0)
    && leb (length run.0) 63
    && not (last_is b'-' run.0)
    && at_end run.1

-- `hostname[:-1]` for exactly one trailing dot.
unfoldable pub without_final_dot : Text → Text
without_final_dot s = if last_is b'.' s then but_last_char s else s

-- The body of the loop, for one element of the comma list.
unfoldable pub valid_element : Text → Bool
valid_element s =
    if ltb 255 (length s) then false else all label_matches (split_on b'.' (without_final_dot s))

-- `none` is the answer `False`. The parts come back as they were sent.
unfoldable pub isvalidhostname : Text → Option (List Text)
isvalidhostname hostnames =
    let parts = split_on b',' hostnames in
    if contains parts [] then none else if all valid_element parts then some parts else none

unfoldable pub split_hostnames : Text → Option (List Text)
unfolding is_label_char label_run label_matches without_final_dot valid_element split_on
    isvalidhostname
split_hostnames raw = isvalidhostname raw
