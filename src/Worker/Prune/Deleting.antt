-- ===== src/Worker/Prune/Deleting.antt =====
-- What deleting distinct ids of old rows takes away.
use atrium_ddns.Prelude.{
  ℕ, suc, ◌+◌, ◌≤◌, ◌<◌, ◌≡◌, refl, Bool, true, false, not, List, [], ◌∷◌, filter, length, ==_iff,
  ==_refl, arith,
}
use atrium_ddns.Store.{Instant}
use atrium_ddns.Worker.Prune.{in_ids, is_old, old_from, delete_ids, row_count}
use atrium_ddns.Worker.Prune.Ids.{Distinct, old_ids, old_ids-later}

module _ {A : Type 0} (created_at : A → Instant) (visible : A → Bool) (cutoff : Instant) where
  -- Each of these ids, from `i` on, is of a row to delete.
  abbrev pub IsOfOld : List ℕ → ℕ → List A → Type 0
  IsOfOld ids i xs =
      (j : ℕ)
      → in_ids j ids ≡ true
      → i ≤ j
      → in_ids j (old_ids created_at visible cutoff i xs) ≡ true

  row_count-later :
      (a i : ℕ) (xs : List A) → a < i → row_count created_at visible cutoff (a ∷ []) i xs ≡ 0
  unfolding row_count
  row_count-later a i [] h = refl
  row_count-later a i (x ∷ xs) h = ground (arith, row_count-later a (suc i) xs)

  row_count-one :
      (a i : ℕ) (xs : List A)
      → in_ids a (old_ids created_at visible cutoff i xs) ≡ true
      → row_count created_at visible cutoff (a ∷ []) i xs ≡ 1
  unfolding row_count old_from
  row_count-one a i [] h = absurd (cc h)
  row_count-one a i (x ∷ xs) h =
      ground (arith, row_count-one a (suc i) xs, row_count-later a (suc i) xs)

  row_count-cons :
      (a : ℕ) (ids : List ℕ) (i : ℕ) (xs : List A)
      → in_ids a ids ≡ false
      → row_count created_at visible cutoff (a ∷ ids) i xs
        ≡ row_count created_at visible cutoff (a ∷ []) i xs
          + row_count created_at visible cutoff ids i xs
  unfolding row_count
  row_count-cons a ids i [] h = refl
  row_count-cons a ids i (x ∷ xs) h = ground (arith, row_count-cons a ids (suc i) xs, ==_iff a i)

  row_count-none : (i : ℕ) (xs : List A) → row_count created_at visible cutoff [] i xs ≡ 0
  unfolding row_count
  row_count-none i [] = refl
  row_count-none i (x ∷ xs) = row_count-none (suc i) xs

  -- Every id deletes its row.
  pub row_count-length :
      (ids : List ℕ) (xs : List A)
      → Distinct ids
      → ((j : ℕ) → in_ids j ids ≡ true → in_ids j (old_ids created_at visible cutoff 0 xs) ≡ true)
      → row_count created_at visible cutoff ids 0 xs ≡ length ids
  row_count-length [] xs d o = row_count-none 0 xs
  row_count-length (a ∷ ids) xs d o = omega (
    arith,
    row_count-cons a ids 0 xs d.0,
    row_count-one a 0 xs (o a (ground (arith, ==_refl a))),
    row_count-length ids xs d.1 (λ j m. o j (ground (arith, m))),
  )

  -- The rows that the scope admits, and those to delete, become fewer by the row count.
  pub delete_ids-visible :
      (ids : List ℕ) (i : ℕ) (xs : List A)
      → length (filter visible (delete_ids created_at visible cutoff ids i xs))
          + row_count created_at visible cutoff ids i xs
        ≡ length (filter visible xs)
  unfolding delete_ids row_count
  delete_ids-visible ids i [] = refl
  delete_ids-visible ids i (x ∷ xs) = ground (arith, delete_ids-visible ids (suc i) xs)

  IsOfOld-tail :
      (ids : List ℕ) (i : ℕ) (x : A) (xs : List A) → IsOfOld ids i (x ∷ xs) → IsOfOld ids (suc i) xs
  unfolding old_from
  IsOfOld-tail ids i x xs o j m le = ground (arith, o j m (omega arith))

  IsOfOld-head :
      (ids : List ℕ) (i : ℕ) (x : A) (xs : List A)
      → IsOfOld ids i (x ∷ xs)
      → in_ids i ids ≡ true
      → is_old created_at visible cutoff x ≡ true
  unfolding old_from
  IsOfOld-head ids i x xs o m =
      ground (arith, o i m (omega arith), old_ids-later created_at visible cutoff (suc i) xs i)

  pub delete_ids-old :
      (ids : List ℕ) (i : ℕ) (xs : List A)
      → IsOfOld ids i xs
      → length (
            filter
              (is_old created_at visible cutoff)
              (delete_ids created_at visible cutoff ids i xs))
          + row_count created_at visible cutoff ids i xs
        ≡ length (filter (is_old created_at visible cutoff) xs)
  unfolding delete_ids row_count
  delete_ids-old ids i [] o = refl
  delete_ids-old ids i (x ∷ xs) o =
      ground (
        arith,
        delete_ids-old ids (suc i) xs (IsOfOld-tail ids i x xs o),
        IsOfOld-head ids i x xs o,
      )

  -- No other row is touched.
  pub delete_ids-others :
      (ids : List ℕ) (i : ℕ) (xs : List A)
      → IsOfOld ids i xs
      → filter
          (λ x. not (is_old created_at visible cutoff x))
          (delete_ids created_at visible cutoff ids i xs)
        ≡ filter (λ x. not (is_old created_at visible cutoff x)) xs
  unfolding delete_ids
  delete_ids-others ids i [] o = refl
  delete_ids-others ids i (x ∷ xs) o = ground (
    arith,
    delete_ids-others ids (suc i) xs (IsOfOld-tail ids i x xs o),
    IsOfOld-head ids i x xs o,
  )
