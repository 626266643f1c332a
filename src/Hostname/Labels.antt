-- ===== src/Hostname/Labels.antt =====
-- What the label pattern accepts, described without the pattern.
use atrium_ddns.Prelude.{
  ◌==◌, ◌≤◌, ◌≡◌, ◌≢◌, refl, ◌⊎◌, inl, inr, true, false, some, [], ◌∷◌, ◌++◌, length, All,
  Bool-cases, arith, sym, ap, ◌∙◌, append-nil, ℕ, ==_iff, ◌↔◌,
}
use atrium_ddns.Text.{Text, last_char}
use atrium_ddns.Hostname.{is_label_char, label_run, at_end, first_is, label_matches, last_is}

-- A label: 1 to 63 label characters, with a dash at neither end.
pub record IsLabel (s : Text) : Type 0 where
  pub chars : All (λ c. is_label_char c ≡ true) s
  pub some_char : 1 ≤ length s
  pub fits : length s ≤ 63
  pub no_first_dash : (rest : Text) → s ≢ b'-' ∷ rest
  pub no_last_dash : last_char s ≢ some b'-'

-- A label, or a label and one newline: the newline that `$` lets pass.
abbrev pub IsLabelLine : Text → Type 0
IsLabelLine s = (body : Text) × IsLabel body × ((s ≡ body) ⊎ (s ≡ body ++ 10 ∷ []))

abbrev Stops : Text → Type 0
Stops [] = Unit
Stops (c ∷ s) = is_label_char c ≡ false

-- The run and the rest are the text, the run has label characters only, and the rest begins with
-- none.
label_run_parts :
    (s : Text)
    → ((label_run s).0 ++ (label_run s).1 ≡ s)
      × All (λ c. is_label_char c ≡ true) (label_run s).0
      × Stops (label_run s).1
unfolding label_run
label_run_parts [] = (refl, tt, tt)
label_run_parts (c ∷ s) = elim (Bool-cases (is_label_char c)) [
  | inl e ↦ let (whole, chars, stops) = label_run_parts s in rw e (rw whole, (e, chars), stops)
  | inr e ↦ rw e (refl, tt, e)
]

label_run-append :
    (body rest : Text)
    → All (λ c. is_label_char c ≡ true) body
    → Stops rest
    → label_run (body ++ rest) ≡ (body, rest)
unfolding label_run
label_run-append [] [] chars stops = refl
label_run-append [] (c ∷ s) chars stops = rw stops
label_run-append (c ∷ body) rest chars stops =
    rw (chars.0, label_run-append body rest chars.1 stops)

not_first :
    (s body rest : Text) → body ++ rest ≡ s → first_is b'-' s ≡ false → (t : Text) → body ≢ b'-' ∷ t
not_first s body rest whole h t e =
    ground (arith, ap (λ (x : Text). first_is b'-' (x ++ rest)) e, ap (first_is b'-') whole)

not_last : (body : Text) → last_is b'-' body ≡ false → last_char body ≢ some b'-'
not_last body h e = ground arith

end_cases :
    (body rest s : Text)
    → body ++ rest ≡ s
    → at_end rest ≡ true
    → (s ≡ body) ⊎ (s ≡ body ++ 10 ∷ [])
end_cases body [] s whole h = inl (sym whole ∙ append-nil body)
end_cases body (c ∷ []) s whole h =
    inr (sym whole ∙ ap (λ (x : ℕ). body ++ x ∷ []) ((==_iff c 10).0 h))
end_cases body (c ∷ d ∷ r) s whole h = cc

label_matches_sound : (s : Text) → label_matches s ≡ true → IsLabelLine s
unfolding label_matches
label_matches_sound s h =
    let (whole, chars, stops) = label_run_parts s in
    let run = label_run s in
    (
      run.0,
      record {
        chars = chars;
        some_char = ground arith;
        fits = ground arith;
        no_first_dash = not_first s run.0 run.1 whole (ground arith);
        no_last_dash = not_last run.0 (ground arith);
      },
      end_cases run.0 run.1 s whole (ground arith),
    )

newline_stops : is_label_char 10 ≡ false
unfolding is_label_char
newline_stops = refl

first_is_not :
    (body rest : Text)
    → 1 ≤ length body
    → ((t : Text) → body ≢ b'-' ∷ t)
    → first_is b'-' (body ++ rest) ≡ false
first_is_not [] rest n h = absurd (omega arith)
first_is_not (c ∷ body) rest n h = elim (Bool-cases (c == b'-')) [
  | inl e ↦ absurd (h body (ap (λ (x : ℕ). x ∷ body) ((==_iff c b'-').0 e)))
  | inr e ↦ e
]

last_is_not : (body : Text) → last_char body ≢ some b'-' → last_is b'-' body ≡ false
last_is_not body h = ground arith

label_matches-append :
    (body rest : Text)
    → IsLabel body
    → Stops rest
    → at_end rest ≡ true
    → label_matches (body ++ rest) ≡ true
unfolding label_matches
label_matches-append body rest l stops ends = rw (label_run-append body rest l.chars stops) (
    ground (
      arith,
      l.some_char,
      l.fits,
      first_is_not body rest l.some_char l.no_first_dash,
      last_is_not body l.no_last_dash,
    ))

label_matches_complete : (s : Text) → IsLabelLine s → label_matches s ≡ true
label_matches_complete s (body, l, inl e) =
    rw e (rw append-nil at (label_matches-append body [] l tt refl))
label_matches_complete s (body, l, inr e) =
    rw e (label_matches-append body (10 ∷ []) l newline_stops refl)

-- The pattern accepts exactly the labels, and the labels with one newline behind them.
pub label_matches_iff : (s : Text) → (label_matches s ≡ true) ↔ IsLabelLine s
label_matches_iff s = (label_matches_sound s, label_matches_complete s)
