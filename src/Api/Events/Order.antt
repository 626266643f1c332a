-- ===== src/Api/Events/Order.antt =====
-- The order of the log, and how it goes with filters.
use atrium_ddns.Prelude.{
  ℕ, suc, ◌<◌, ◌≡◌, refl, sym, inl, inr, Bool, true, false, List, [], ◌∷◌, ◌++◌, All, filter,
  Bool-cases, arith,
}
use atrium_ddns.Store.{DnsEvent}
use atrium_ddns.Api.Events.{Row, numbered, newer, insert_row, newest_first, below, cursor_of}

-- Each row comes before all that follow it.
abbrev pub IsDescending : List Row → Type 0
IsDescending [] = Unit
IsDescending (x ∷ xs) = All (λ y. newer x y ≡ true) xs × IsDescending xs

newer_trans : (x y z : Row) → newer x y ≡ true → newer y z ≡ true → newer x z ≡ true
newer_trans (i, e) (j, f) (k, g) h l = ground arith

-- Of two rows with different ids one is newer.
newer_total : (x y : Row) → x.0 < y.0 → newer x y ≡ false → newer y x ≡ true
newer_total (i, e) (j, f) lt h = ground arith

pub below-newer : (x y : Row) → below (cursor_of x) y ≡ newer x y
below-newer (i, e) (j, f) = ground arith

newer_irrefl : (x : Row) → newer x x ≡ false
newer_irrefl (i, e) = ground arith

newer_asym : (x y : Row) → newer x y ≡ true → newer y x ≡ false
newer_asym (i, e) (j, f) h = ground arith

All-newer_trans :
    (x y : Row) (zs : List Row)
    → newer x y ≡ true
    → All (λ z. newer y z ≡ true) zs
    → All (λ z. newer x z ≡ true) zs
All-newer_trans x y [] h a = tt
All-newer_trans x y (z ∷ zs) h a = (newer_trans x y z h a.0, All-newer_trans x y zs h a.1)

insert_row-All :
    (w x : Row) (ys : List Row)
    → newer w x ≡ true
    → All (λ y. newer w y ≡ true) ys
    → All (λ y. newer w y ≡ true) (insert_row x ys)
unfolding insert_row
insert_row-All w x [] h a = (h, tt)
insert_row-All w x (y ∷ ys) h a = elim (Bool-cases (newer x y)) [
  | inl e ↦ rw e (h, a)
  | inr e ↦ rw e (a.0, insert_row-All w x ys h a.1)
]

insert_row-IsDescending :
    (x : Row) (ys : List Row)
    → All (λ y. x.0 < y.0) ys
    → IsDescending ys
    → IsDescending (insert_row x ys)
unfolding insert_row
insert_row-IsDescending x [] l d = (tt, tt)
insert_row-IsDescending x (y ∷ ys) l d = elim (Bool-cases (newer x y)) [
  | inl e ↦ rw e ((e, All-newer_trans x y ys e d.0), d)
  | inr e ↦
      rw e (insert_row-All y x ys (newer_total x y l.0 e) d.0, insert_row-IsDescending x ys l.1 d.1)
]

-- A row that is dropped leaves no trace, and one that is kept finds its place among those kept.
filter-insert_row_dropped :
    (p : Row → Bool) (x : Row) (ys : List Row)
    → p x ≡ false
    → filter p (insert_row x ys) ≡ filter p ys
unfolding insert_row
filter-insert_row_dropped p x [] h = ground arith
filter-insert_row_dropped p x (y ∷ ys) h = ground (arith, filter-insert_row_dropped p x ys h)

insert_row-before :
    (p : Row → Bool) (x y : Row) (ys : List Row)
    → newer x y ≡ true
    → All (λ z. newer y z ≡ true) ys
    → insert_row x (filter p ys) ≡ x ∷ filter p ys
unfolding insert_row
insert_row-before p x y [] h a = refl
insert_row-before p x y (z ∷ ys) h a =
    ground (arith, insert_row-before p x y ys h a.1, newer_trans x y z h a.0)

filter-insert_row_kept :
    (p : Row → Bool) (x : Row) (ys : List Row)
    → p x ≡ true
    → IsDescending ys
    → filter p (insert_row x ys) ≡ insert_row x (filter p ys)
unfolding insert_row
filter-insert_row_kept p x [] h d = ground arith
filter-insert_row_kept p x (y ∷ ys) h d =
    ground (arith, filter-insert_row_kept p x ys h d.1, insert_row-before p x y ys)

-- The ids grow along the list.
abbrev pub IsAscending : List Row → Type 0
IsAscending [] = Unit
IsAscending (x ∷ xs) = All (λ y. x.0 < y.0) xs × IsAscending xs

numbered-later : (j i : ℕ) (es : List DnsEvent) → j < i → All (λ y. j < y.0) (numbered i es)
unfolding numbered
numbered-later j i [] h = tt
numbered-later j i (e ∷ es) h = (h, numbered-later j (suc i) es (omega (arith, h)))

pub numbered-IsAscending : (i : ℕ) (es : List DnsEvent) → IsAscending (numbered i es)
unfolding numbered
numbered-IsAscending i [] = tt
numbered-IsAscending i (e ∷ es) =
    (numbered-later i (suc i) es (omega arith), numbered-IsAscending (suc i) es)

filter-All : (Q : Row → Type 0) (p : Row → Bool) (xs : List Row) → All Q xs → All Q (filter p xs)
filter-All Q p [] a = tt
filter-All Q p (x ∷ xs) a = elim (Bool-cases (p x)) [
  | inl e ↦ rw e (a.0, filter-All Q p xs a.1)
  | inr e ↦ rw e (filter-All Q p xs a.1)
]

pub filter-IsAscending :
    (p : Row → Bool) (xs : List Row) → IsAscending xs → IsAscending (filter p xs)
filter-IsAscending p [] a = tt
filter-IsAscending p (x ∷ xs) a = elim (Bool-cases (p x)) [
  | inl e ↦ rw e (filter-All (λ y. x.0 < y.0) p xs a.0, filter-IsAscending p xs a.1)
  | inr e ↦ rw e (filter-IsAscending p xs a.1)
]

insert_row-All_of :
    (Q : Row → Type 0) (x : Row) (ys : List Row) → Q x → All Q ys → All Q (insert_row x ys)
unfolding insert_row
insert_row-All_of Q x [] h a = (h, tt)
insert_row-All_of Q x (y ∷ ys) h a = elim (Bool-cases (newer x y)) [
  | inl e ↦ rw e (h, a)
  | inr e ↦ rw e (a.0, insert_row-All_of Q x ys h a.1)
]

newest_first-All : (Q : Row → Type 0) (xs : List Row) → All Q xs → All Q (newest_first xs)
unfolding newest_first
newest_first-All Q [] a = tt
newest_first-All Q (x ∷ xs) a =
    insert_row-All_of Q x (newest_first xs) a.0 (newest_first-All Q xs a.1)

pub newest_first-IsDescending : (xs : List Row) → IsAscending xs → IsDescending (newest_first xs)
unfolding newest_first
newest_first-IsDescending [] a = tt
newest_first-IsDescending (x ∷ xs) a =
    insert_row-IsDescending x (newest_first xs) (newest_first-All (λ y. x.0 < y.0) xs a.0)
      (newest_first-IsDescending xs a.1)

-- Sorting what is kept, or keeping of what is sorted.
pub filter-newest_first :
    (p : Row → Bool) (xs : List Row)
    → IsAscending xs
    → newest_first (filter p xs) ≡ filter p (newest_first xs)
unfolding newest_first
filter-newest_first p [] a = refl
filter-newest_first p (x ∷ xs) a = elim (Bool-cases (p x)) [
  | inl e ↦
      rw (e, filter-newest_first p xs a.1)
        (sym (filter-insert_row_kept p x (newest_first xs) e (newest_first-IsDescending xs a.1)))
  | inr e ↦
      rw (e, filter-newest_first p xs a.1) (sym (filter-insert_row_dropped p x (newest_first xs) e))
]

below-none :
    (z : Row) (ys : List Row)
    → All (λ y. newer z y ≡ true) ys
    → filter (below (cursor_of z)) ys ≡ ys
below-none z [] a = refl
below-none z (y ∷ ys) a = rw (below-newer z y, a.0, below-none z ys a.1) refl

All-IsIn_append :
    (w z : Row) (xs ys : List Row) → All (λ y. newer w y ≡ true) (xs ++ z ∷ ys) → newer w z ≡ true
All-IsIn_append w z [] ys a = a.0
All-IsIn_append w z (x ∷ xs) ys a = All-IsIn_append w z xs ys a.1

-- Below a row of the log are the rows behind it.
pub below-suffix :
    (xs : List Row) (z : Row) (ys : List Row)
    → IsDescending (xs ++ z ∷ ys)
    → filter (below (cursor_of z)) (xs ++ z ∷ ys) ≡ ys
below-suffix [] z ys d = rw (below-newer z z, newer_irrefl z) (below-none z ys d.0)
below-suffix (x ∷ xs) z ys d =
    let above : newer z x ≡ false = newer_asym x z (All-IsIn_append x z xs ys d.0) in
    rw (below-newer z x, above) (below-suffix xs z ys d.1)
