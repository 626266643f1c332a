-- ===== src/Hostname/Elements.antt =====
-- What `isvalidhostname` accepts, element by element.
use atrium_ddns.Prelude.{
  ◌≤◌, ◌≡◌, ◌↔◌, refl, true, false, some, List, [], ◌∷◌, arith, length, All, all,
}
use atrium_ddns.Text.{Text, split_on, contains}
use atrium_ddns.Hostname.{
  label_matches, valid_element, without_final_dot, isvalidhostname, label_run,
}
use atrium_ddns.Hostname.Labels.{IsLabelLine, label_matches_iff}

-- At most 255 characters, and labels between the dots once one trailing dot is gone.
pub record IsElement (s : Text) : Type 0 where
  pub fits : length s ≤ 255
  pub labels : All IsLabelLine (split_on b'.' (without_final_dot s))

all_labels_sound : (ps : List Text) → all label_matches ps ≡ true → All IsLabelLine ps
all_labels_sound [] h = tt
all_labels_sound (p ∷ ps) h =
    ((label_matches_iff p).0 (ground arith), all_labels_sound ps (ground arith))

all_labels_complete : (ps : List Text) → All IsLabelLine ps → all label_matches ps ≡ true
all_labels_complete [] h = refl
all_labels_complete (p ∷ ps) h = rw ((label_matches_iff p).1 h.0, all_labels_complete ps h.1)

valid_element_iff : (s : Text) → (valid_element s ≡ true) ↔ IsElement s
unfolding valid_element
valid_element_iff s = (
  λ h. record { fits = ground arith; labels = all_labels_sound _ (ground arith) },
  λ e. ground (arith, e.fits, all_labels_complete _ e.labels),
)

all_valid_sound : (ps : List Text) → all valid_element ps ≡ true → All IsElement ps
all_valid_sound [] h = tt
all_valid_sound (p ∷ ps) h =
    ((valid_element_iff p).0 (ground arith), all_valid_sound ps (ground arith))

all_valid_complete : (ps : List Text) → All IsElement ps → all valid_element ps ≡ true
all_valid_complete [] h = refl
all_valid_complete (p ∷ ps) h = rw ((valid_element_iff p).1 h.0, all_valid_complete ps h.1)

empty_invalid : valid_element [] ≡ false
unfolding valid_element without_final_dot split_on label_matches label_run
empty_invalid = refl

-- An empty element among valid ones is impossible, so the test for it decides nothing else.
no_empty : (ps : List Text) → All IsElement ps → contains ps [] ≡ false
no_empty [] h = refl
no_empty ([] ∷ ps) h = cc (empty_invalid, (valid_element_iff []).1 h.0)
no_empty ((c ∷ p) ∷ ps) h = no_empty ps h.1

isvalidhostname_sound :
    (raw : Text) (parts : List Text)
    → isvalidhostname raw ≡ some parts
    → (parts ≡ split_on b',' raw) × All IsElement parts
unfolding isvalidhostname
isvalidhostname_sound raw parts h =
    let e : parts ≡ split_on b',' raw = ground arith in (e, rw e (all_valid_sound _ (ground arith)))

isvalidhostname_complete :
    (raw : Text) (parts : List Text)
    → (parts ≡ split_on b',' raw) × All IsElement parts
    → isvalidhostname raw ≡ some parts
unfolding isvalidhostname
isvalidhostname_complete raw parts (e, valid) =
    rw (← e) (rw (no_empty parts valid, all_valid_complete parts valid))

-- A comma list is accepted exactly when each of its elements is a host name, and what comes back
-- is the elements as they were sent: not stripped, not lower-cased, in their order.
pub isvalidhostname_iff :
    (raw : Text) (parts : List Text)
    → (isvalidhostname raw ≡ some parts) ↔ ((parts ≡ split_on b',' raw) × All IsElement parts)
isvalidhostname_iff raw parts =
    (isvalidhostname_sound raw parts, isvalidhostname_complete raw parts)
