-- ===== src/Worker/Prune/Runs.antt =====
-- What a whole prune comes to: how much is deleted, in how many batches, and whether it says that there is
-- more; and prunes one after the other.
use atrium_ddns.Prelude.{
  ℕ, zero, suc, ◌+◌, ◌*◌, ◌≤◌, ◌≡◌, ◌∙◌, Bool, false, List, filter, length, leb, arith, sym,
}
use atrium_ddns.Store.{Instant}
use atrium_ddns.Worker.Prune.{PruneSummary, prune_table}
use atrium_ddns.Worker.Prune.Batches.{mul-suc, at_most, old_count, others, prune_batches-Pruned}

module _ {A : Type 0} (created_at : A → Instant) (visible : A → Bool) (cutoff : Instant) where
  -- What a prune comes to, with batches of at least one row: at most `max_batches * batch_size` old rows
  -- are deleted, and all of them if there are no more; no other row is; and the summary counts the rows
  -- deleted and those left. `truncated` says that there were `max_batches * batch_size` old rows or more.
  pub prune_table_lem :
      (batch_size max_batches : ℕ) (rows : List A)
      → 1 ≤ batch_size
      → let (s, rows') = prune_table created_at visible cutoff batch_size max_batches rows in
        (s.deleted ≡ at_most (max_batches * batch_size) (old_count created_at visible cutoff rows))
        × (old_count created_at visible cutoff rows' + s.deleted
            ≡ old_count created_at visible cutoff rows)
        × (others created_at visible cutoff rows' ≡ others created_at visible cutoff rows)
        × (s.kept + s.deleted ≡ length (filter visible rows))
        × (s.batches ≤ max_batches)
        × (s.truncated ≡ leb (max_batches * batch_size) (old_count created_at visible cutoff rows))
  unfolding prune_table
  prune_table_lem batch_size max_batches rows h =
      let s0 : PruneSummary = record { deleted = 0; kept = 0; batches = 0; truncated = false } in
      let (d, t, k) =
        prune_batches-Pruned created_at visible cutoff batch_size max_batches s0 rows h in
      (
        omega (arith, d.0),
        omega (arith, d.0, d.1),
        d.3,
        omega (arith, d.0, d.2),
        omega (arith, k),
        ground (arith, d.1, t),
      )

  -- A prune that does not say `truncated` leaves nothing for a second one with the same cutoff.
  pub prune_table-again :
      (batch_size max_batches : ℕ) (rows : List A)
      → 1 ≤ batch_size
      → 1 ≤ max_batches
      → (prune_table created_at visible cutoff batch_size max_batches rows).0.truncated ≡ false
      → (prune_table created_at visible cutoff batch_size max_batches
          (prune_table created_at visible cutoff batch_size max_batches rows).1).0.deleted
        ≡ 0
  prune_table-again batch_size max_batches rows h k t =
      let (s, rows1) = prune_table created_at visible cutoff batch_size max_batches rows in
      let (deleted, left, others, kept, batches, truncated) =
        prune_table_lem batch_size max_batches rows h in
      let again = prune_table_lem batch_size max_batches rows1 h in
      let room : leb (max_batches * batch_size) (old_count created_at visible cutoff rows) ≡ false =
        sym truncated ∙ t in
      let none_left : old_count created_at visible cutoff rows1 ≡ 0 =
        ground (arith, deleted, left, room) in
      again.0 ∙ ground (arith, none_left)

  -- One prune after the other, with the same cutoff.
  pub prune_runs : ℕ → ℕ → ℕ → List A → List A
  prune_runs batch_size max_batches zero rows = rows
  prune_runs batch_size max_batches (suc n) rows =
      prune_runs batch_size max_batches n
        (prune_table created_at visible cutoff batch_size max_batches rows).1

  -- Prunes of at least one row each come to an end: after `n` of them no old row is left, if there were no
  -- more than `n * (max_batches * batch_size)`.
  pub prune_runs-finishes :
      (batch_size max_batches n : ℕ) (rows : List A)
      → 1 ≤ batch_size
      → old_count created_at visible cutoff rows ≤ n * (max_batches * batch_size)
      → old_count created_at visible cutoff (prune_runs batch_size max_batches n rows) ≡ 0
  unfolding prune_runs
  prune_runs-finishes batch_size max_batches zero rows h le = omega (arith, le)
  prune_runs-finishes batch_size max_batches (suc n) rows h le =
      let rows1 = (prune_table created_at visible cutoff batch_size max_batches rows).1 in
      let (deleted, left, others, kept, batches, truncated) =
        prune_table_lem batch_size max_batches rows h in
      let fewer : old_count created_at visible cutoff rows1 ≤ n * (max_batches * batch_size) =
        ground (arith, deleted, left, le, mul-suc n (max_batches * batch_size)) in
      prune_runs-finishes batch_size max_batches n rows1 h fewer
