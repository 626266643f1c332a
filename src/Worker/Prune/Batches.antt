-- ===== src/Worker/Prune/Batches.antt =====
-- What the batches of a prune delete.
use atrium_ddns.Prelude.{
  ℕ, zero, suc, ◌+◌, ◌*◌, ◌≤◌, ◌<◌, ◌≡◌, inl, inr, refl, ◌∙◌, Bool, false, ◌||◌, not, List, map,
  filter, length, leb, ltb, ◌==◌, Bool-cases, arith, if◌then◌else◌, if_true, if_false, subst, sym,
}
use atrium_ddns.Store.{Instant}
use atrium_ddns.Worker.Prune.{
  PruneSummary, is_old, old_from, order_ids, batch_ids, delete_ids, count_batch, prune_batches,
}
use atrium_ddns.Worker.Prune.Ids.{
  take-length, take-length_all, batch_ids-Distinct, batch_ids-old, order_ids-old_length,
}
use atrium_ddns.Worker.Prune.Deleting.{
  row_count-length, delete_ids-visible, delete_ids-old, delete_ids-others,
}

-- `n` batches of `b` rows.
pub mul-suc : (n b : ℕ) → suc n * b ≡ b + n * b
mul-suc n b = omega arith

abbrev pub at_most : ℕ → ℕ → ℕ
at_most limit n = if leb limit n then limit else n

module _ {A : Type 0} (created_at : A → Instant) (visible : A → Bool) (cutoff : Instant) where
  abbrev pub old_count : List A → ℕ
  old_count rows = length (filter (is_old created_at visible cutoff) rows)

  abbrev pub others : List A → List A
  others rows = filter (λ x. not (is_old created_at visible cutoff x)) rows

  batch_ids-length :
      (b : ℕ) (rows : List A)
      → length (batch_ids created_at visible cutoff b rows) ≡ at_most b (old_count rows)
  batch_ids-length b rows =
      let ids =
        map (λ (p : ℕ × Instant). p.0) (order_ids (old_from created_at visible cutoff 0 rows)) in
      ground (
        arith,
        take-length b ids,
        take-length_all b ids,
        order_ids-old_length created_at visible cutoff rows,
      )

  -- From a state to the one after some batches, in which `d` rows were deleted.
  abbrev pub Deleted : ℕ → PruneSummary → List A → PruneSummary → List A → Type 0
  Deleted d s rows s' rows' =
      (s'.deleted ≡ s.deleted + d)
      × (old_count rows' + d ≡ old_count rows)
      × (length (filter visible rows') + d ≡ length (filter visible rows))
      × (others rows' ≡ others rows)

  -- One batch.
  batch-Deleted :
      (b : ℕ) (s : PruneSummary) (rows : List A)
      → let ids = batch_ids created_at visible cutoff b rows in
        Deleted
          (length ids)
          s
          rows
          (count_batch created_at visible cutoff ids rows s)
          (delete_ids created_at visible cutoff ids 0 rows)
  batch-Deleted b s rows =
      let ids = batch_ids created_at visible cutoff b rows in
      let old = batch_ids-old created_at visible cutoff b rows in
      let n =
        row_count-length created_at visible cutoff ids rows
          (batch_ids-Distinct created_at visible cutoff b rows) old in
      (
        omega (arith, n),
        omega (arith, n, delete_ids-old created_at visible cutoff ids 0 rows (λ j m le. old j m)),
        omega (arith, n, delete_ids-visible created_at visible cutoff ids 0 rows),
        delete_ids-others created_at visible cutoff ids 0 rows (λ j m le. old j m),
      )

  -- What the batches left come to.
  abbrev pub Pruned : ℕ → ℕ → PruneSummary → List A → PruneSummary × List A → Type 0
  Pruned b left s rows (s', rows') =
      Deleted (at_most (left * b) (old_count rows)) s rows s' rows'
      × (s'.truncated ≡ (s.truncated || leb (left * b) (old_count rows)))
      × (s'.batches ≤ s.batches + left)

  no_batch-Pruned :
      (b left : ℕ) (s : PruneSummary) (rows : List A)
      → 1 ≤ b
      → old_count rows ≡ 0
      → Pruned b (suc left) s rows (s, rows)
  no_batch-Pruned b left s rows h e =
      let d : at_most (suc left * b) (old_count rows) ≡ 0 = ground (arith, mul-suc left b) in
      (
        (omega (arith, d), omega (arith, d), omega (arith, d), refl),
        ground (arith, mul-suc left b),
        omega arith,
      )

  -- A batch that is not full takes all that there is.
  last_batch-Pruned :
      (b left d : ℕ) (s s1 : PruneSummary) (rows rows1 : List A)
      → d < b
      → d ≡ at_most b (old_count rows)
      → s1.truncated ≡ s.truncated
      → s1.batches ≡ suc s.batches
      → Deleted d s rows s1 rows1
      → Pruned b (suc left) s rows (s1, rows1)
  last_batch-Pruned b left d s s1 rows rows1 short n t k p =
      let few : old_count rows ≡ d = ground (arith, n) in
      let all : at_most (suc left * b) (old_count rows) ≡ d = ground (arith, few, mul-suc left b) in
      let done : leb (suc left * b) (old_count rows) ≡ false =
        ground (arith, few, mul-suc left b) in
      (
        (omega (arith, all, p.0), omega (arith, all, p.1), omega (arith, all, p.2), p.3),
        rw (done, t) ground arith,
        omega (arith, k),
      )

  -- A full batch, and the batches after it.
  full_batch-Pruned :
      (b left d : ℕ) (s s1 s2 : PruneSummary) (rows rows1 rows2 : List A)
      → d ≡ b
      → s1.truncated ≡ s.truncated
      → s1.batches ≡ suc s.batches
      → Deleted d s rows s1 rows1
      → Pruned b left s1 rows1 (s2, rows2)
      → Pruned b (suc left) s rows (s2, rows2)
  full_batch-Pruned b left d s s1 s2 rows rows1 rows2 full t k p (q, u, v) =
      let more : at_most (suc left * b) (old_count rows)
          ≡ d + at_most (left * b) (old_count rows1) =
        ground (arith, full, p.1, mul-suc left b) in
      let same : leb (suc left * b) (old_count rows) ≡ leb (left * b) (old_count rows1) =
        ground (arith, full, p.1, mul-suc left b) in
      (
        (
          omega (arith, more, p.0, q.0),
          omega (arith, more, p.1, q.1),
          omega (arith, more, p.2, q.2),
          q.3 ∙ p.3,
        ),
        u ∙ rw (same, t) refl,
        omega (arith, k, v),
      )

  pub prune_batches-Pruned :
      (b left : ℕ) (s : PruneSummary) (rows : List A)
      → 1 ≤ b
      → Pruned b left s rows (prune_batches created_at visible cutoff b left s rows)
  unfolding prune_batches
  prune_batches-Pruned b zero s rows h =
      ((ground arith, ground arith, ground arith, refl), ground arith, omega arith)
  prune_batches-Pruned b (suc left) s rows h =
      let ids = batch_ids created_at visible cutoff b rows in
      let s1 = count_batch created_at visible cutoff ids rows s in
      let rows1 = delete_ids created_at visible cutoff ids 0 rows in
      let after = prune_batches created_at visible cutoff b left s1 rows1 in
      let n = batch_ids-length b rows in
      let step = batch-Deleted b s rows in
      elim (Bool-cases (length ids == 0)) [
        | inl e ↦
            subst (λ a. Pruned b (suc left) s rows a) (sym (if_true _ _ e))
              (no_batch-Pruned b left s rows h (ground (arith, n, e)))
        | inr e ↦
            subst (λ a. Pruned b (suc left) s rows a) (sym (if_false _ _ e))
              (elim (Bool-cases (ltb (length ids) b)) [
                | inl f ↦
                    subst (λ a. Pruned b (suc left) s rows a) (sym (if_true _ _ f))
                      (last_batch-Pruned b left (length ids) s s1 rows rows1 (ground (arith, f)) n
                        refl refl step)
                | inr f ↦
                    subst (λ a. Pruned b (suc left) s rows a) (sym (if_false _ _ f))
                      (full_batch-Pruned b left (length ids) s s1 after.0 rows rows1 after.1
                        (ground (arith, n, f)) refl refl step
                        (prune_batches-Pruned b left s1 rows1 h))
              ])
      ]
