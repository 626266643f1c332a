-- ===== src/Worker/Prune/Ids.antt =====
-- The ids of a batch: distinct, and each of a row to delete.
use atrium_ddns.Prelude.{
  ℕ, zero, suc, ◌≤◌, ◌<◌, ◌≡◌, refl, Bool, true, false, ◌||◌, List, [], ◌∷◌, map, filter, length,
  take, ◌==◌, ==_iff, arith, ◌∙◌, sym,
}
use atrium_ddns.Store.{Instant}
use atrium_ddns.Worker.Prune.{in_ids, insert_id, order_ids, is_old, old_from, batch_ids}

abbrev keys : List (ℕ × Instant) → List ℕ
keys ps = map (λ p. p.0) ps

abbrev pub Distinct : List ℕ → Type 0
Distinct [] = Unit
Distinct (a ∷ ids) = (in_ids a ids ≡ false) × Distinct ids

insert_id-in_ids :
    (p : ℕ × Instant) (qs : List (ℕ × Instant)) (j : ℕ)
    → in_ids j (keys (insert_id p qs)) ≡ (p.0 == j || in_ids j (keys qs))
unfolding insert_id
insert_id-in_ids p [] j = refl
insert_id-in_ids p (q ∷ qs) j = ground (arith, insert_id-in_ids p qs j)

order_ids-in_ids :
    (ps : List (ℕ × Instant)) (j : ℕ) → in_ids j (keys (order_ids ps)) ≡ in_ids j (keys ps)
unfolding order_ids
order_ids-in_ids [] j = refl
order_ids-in_ids (p ∷ ps) j =
    ground (arith, insert_id-in_ids p (order_ids ps) j, order_ids-in_ids ps j)

insert_id-length :
    (p : ℕ × Instant) (qs : List (ℕ × Instant))
    → length (keys (insert_id p qs)) ≡ suc (length (keys qs))
unfolding insert_id
insert_id-length p [] = refl
insert_id-length p (q ∷ qs) = ground (arith, insert_id-length p qs)

order_ids-length : (ps : List (ℕ × Instant)) → length (keys (order_ids ps)) ≡ length (keys ps)
unfolding order_ids
order_ids-length [] = refl
order_ids-length (p ∷ ps) = omega (arith, insert_id-length p (order_ids ps), order_ids-length ps)

insert_id-Distinct :
    (p : ℕ × Instant) (qs : List (ℕ × Instant))
    → in_ids p.0 (keys qs) ≡ false
    → Distinct (keys qs)
    → Distinct (keys (insert_id p qs))
unfolding insert_id
insert_id-Distinct p [] n d = (refl, tt)
insert_id-Distinct p (q ∷ qs) n d =
    ground (arith, insert_id-Distinct p qs, insert_id-in_ids p qs q.0, ==_iff p.0 q.0)

order_ids-Distinct : (ps : List (ℕ × Instant)) → Distinct (keys ps) → Distinct (keys (order_ids ps))
unfolding order_ids
order_ids-Distinct [] d = tt
order_ids-Distinct (p ∷ ps) d =
    insert_id-Distinct p (order_ids ps) (order_ids-in_ids ps p.0 ∙ d.0) (order_ids-Distinct ps d.1)

take-in_ids : (n : ℕ) (ids : List ℕ) (j : ℕ) → in_ids j (take n ids) ≡ true → in_ids j ids ≡ true
take-in_ids zero ids j h = absurd (cc h)
take-in_ids (suc n) [] j h = h
take-in_ids (suc n) (a ∷ ids) j h = ground (arith, take-in_ids n ids j)

take-Distinct : (n : ℕ) (ids : List ℕ) → Distinct ids → Distinct (take n ids)
take-Distinct zero ids d = tt
take-Distinct (suc n) [] d = tt
take-Distinct (suc n) (a ∷ ids) d =
    (ground (arith, take-in_ids n ids a, d.0), take-Distinct n ids d.1)

pub take-length : (n : ℕ) (ids : List ℕ) → n ≤ length ids → length (take n ids) ≡ n
take-length zero ids h = refl
take-length (suc n) [] h = absurd (omega arith)
take-length (suc n) (a ∷ ids) h = omega (arith, take-length n ids (omega arith))

pub take-length_all : (n : ℕ) (ids : List ℕ) → length ids ≤ n → length (take n ids) ≡ length ids
take-length_all zero [] h = refl
take-length_all zero (a ∷ ids) h = absurd (omega arith)
take-length_all (suc n) [] h = refl
take-length_all (suc n) (a ∷ ids) h = omega (arith, take-length_all n ids (omega arith))

module _ {A : Type 0} (created_at : A → Instant) (visible : A → Bool) (cutoff : Instant) where
  -- The ids of the rows to delete, from an id on.
  abbrev pub old_ids : ℕ → List A → List ℕ
  old_ids i xs = keys (old_from created_at visible cutoff i xs)

  pub old_ids-later : (i : ℕ) (xs : List A) (j : ℕ) → j < i → in_ids j (old_ids i xs) ≡ false
  unfolding old_from
  old_ids-later i [] j h = refl
  old_ids-later i (x ∷ xs) j h = ground (arith, old_ids-later (suc i) xs j)

  old_ids-Distinct : (i : ℕ) (xs : List A) → Distinct (old_ids i xs)
  unfolding old_from
  old_ids-Distinct i [] = tt
  old_ids-Distinct i (x ∷ xs) =
      ground (arith, old_ids-Distinct (suc i) xs, old_ids-later (suc i) xs i)

  pub old_ids-length :
      (i : ℕ) (xs : List A)
      → length (old_ids i xs) ≡ length (filter (is_old created_at visible cutoff) xs)
  unfolding old_from
  old_ids-length i [] = refl
  old_ids-length i (x ∷ xs) = ground (arith, old_ids-length (suc i) xs)

  -- What a batch holds: distinct ids, each of a row to delete.
  pub batch_ids-Distinct :
      (n : ℕ) (rows : List A) → Distinct (batch_ids created_at visible cutoff n rows)
  batch_ids-Distinct n rows =
      take-Distinct n (keys (order_ids (old_from created_at visible cutoff 0 rows)))
        (order_ids-Distinct (old_from created_at visible cutoff 0 rows) (old_ids-Distinct 0 rows))

  pub batch_ids-old :
      (n : ℕ) (rows : List A) (j : ℕ)
      → in_ids j (batch_ids created_at visible cutoff n rows) ≡ true
      → in_ids j (old_ids 0 rows) ≡ true
  batch_ids-old n rows j h =
      sym (order_ids-in_ids (old_from created_at visible cutoff 0 rows) j)
      ∙ take-in_ids n (keys (order_ids (old_from created_at visible cutoff 0 rows))) j h

  pub order_ids-old_length :
      (rows : List A)
      → length (keys (order_ids (old_from created_at visible cutoff 0 rows)))
        ≡ length (filter (is_old created_at visible cutoff) rows)
  order_ids-old_length rows =
      order_ids-length (old_from created_at visible cutoff 0 rows) ∙ old_ids-length 0 rows
