-- ===== src/Worker/Prune.antt =====
-- `_prune_table` and `run_retention_prune` (backend/src/atrium_ddns/worker_jobs.py). Nothing else is
-- written while a prune runs.
pub mod Ids
pub mod Deleting
pub mod Batches
pub mod Runs
use atrium_ddns.Prelude.{
  ℕ, zero, suc, ◌+◌, ◌*◌, Bool, true, false, ◌&&◌, ◌||◌, not, Option, none, some, List, [], ◌∷◌,
  map, filter, length, take, any, leb, ltb, ◌==◌, if◌then◌else◌, ◌-◌,
}
use atrium_ddns.Store.{Tables, Instant, DnsEvent, RateLimitEvent}
use atrium_ddns.Scope.{
  DdnsScope, sees, predicate, dns_event, rate_limit_event, owns_event, owns_rate_event,
}
use atrium_ddns.Worker.Config.{DdnsConfig}
use atrium_ddns.Worker.Devices.{one_day}

pub record PruneSummary : Type 0 where
  pub deleted : ℕ
  pub kept : ℕ
  pub batches : ℕ
  pub truncated : Bool

-- `id IN (…)`. Within a batch a row's id is its place in the table.
abbrev pub in_ids : ℕ → List ℕ → Bool
in_ids id ids = any (λ j. j == id) ids

-- `ORDER BY created_at` of ids with their moments.
unfoldable pub insert_id : ℕ × Instant → List (ℕ × Instant) → List (ℕ × Instant)
insert_id p [] = p ∷ []
insert_id p (q ∷ qs) = if leb p.1 q.1 then p ∷ q ∷ qs else q ∷ insert_id p qs

unfoldable pub order_ids : List (ℕ × Instant) → List (ℕ × Instant)
unfolding insert_id
order_ids [] = []
order_ids (p ∷ ps) = insert_id p (order_ids ps)

-- One table: when its rows were made, which of them the scope admits, and the cutoff.
module _ {A : Type 0} (created_at : A → Instant) (visible : A → Bool) (cutoff : Instant) where
  abbrev pub is_old : A → Bool
  is_old x = visible x && ltb (created_at x) cutoff

  -- The rows to delete, from an id on.
  unfoldable pub old_from : ℕ → List A → List (ℕ × Instant)
  old_from i [] = []
  old_from i (x ∷ xs) =
      let rest = old_from (suc i) xs in if is_old x then (i, created_at x) ∷ rest else rest

  -- `SELECT id … WHERE created_at < :cutoff ORDER BY created_at LIMIT :n`.
  abbrev pub batch_ids : ℕ → List A → List ℕ
  batch_ids batch_size rows = take batch_size (map (λ p. p.0) (order_ids (old_from 0 rows)))

  -- `DELETE … WHERE id IN (…)`, from an id on, and its row count.
  unfoldable pub delete_ids : List ℕ → ℕ → List A → List A
  delete_ids ids i [] = []
  delete_ids ids i (x ∷ xs) =
      let rest = delete_ids ids (suc i) xs in if in_ids i ids && visible x then rest else x ∷ rest

  unfoldable pub row_count : List ℕ → ℕ → List A → ℕ
  row_count ids i [] = 0
  row_count ids i (x ∷ xs) =
      let rest = row_count ids (suc i) xs in if in_ids i ids && visible x then suc rest else rest

  abbrev pub count_batch : List ℕ → List A → PruneSummary → PruneSummary
  count_batch ids rows s = record s {
    deleted = s.deleted + row_count ids 0 rows;
    batches = suc s.batches;
  }

  -- The loop, on the batches left; `else` is the end without a break.
  unfoldable pub prune_batches : ℕ → ℕ → PruneSummary → List A → PruneSummary × List A
  unfolding delete_ids row_count old_from order_ids
  prune_batches batch_size zero s rows = (record s { truncated = true }, rows)
  prune_batches batch_size (suc left) s rows =
      let ids = batch_ids batch_size rows in
      let after = delete_ids ids 0 rows in
      let more = prune_batches batch_size left (count_batch ids rows s) after in
      if length ids == 0
      then (s, rows)
      else if ltb (length ids) batch_size
      then (count_batch ids rows s, after)
      else more

  -- The counts after the loop.
  abbrev pub prune_counts : PruneSummary × List A → PruneSummary × List A
  prune_counts (s, rows) = (
    record s {
      kept = length (filter visible rows);
      truncated = s.truncated || ltb 0 (length (filter is_old rows));
    },
    rows,
  )

  unfoldable pub prune_table : ℕ → ℕ → List A → PruneSummary × List A
  unfolding prune_batches
  prune_table batch_size max_batches rows = prune_counts (
      prune_batches batch_size max_batches
        (record { deleted = 0; kept = 0; batches = 0; truncated = false }) rows)

-- One hour, in microseconds.
abbrev pub one_hour : ℕ
one_hour = 3600 * 1000000

-- `now - timedelta(…)`: no row is older than the first instant.
abbrev pub event_cutoff : DdnsConfig → Instant → Instant
event_cutoff c now = now - c.event_retention_days * one_day

abbrev pub rate_event_cutoff : DdnsConfig → Instant → Instant
rate_event_cutoff c now = now - c.rate_limit_event_retention_hours * one_hour

abbrev pub prune_events : DdnsConfig → DdnsScope → Instant → Tables → PruneSummary × List DnsEvent
prune_events c scope now t =
    prune_table (λ e. e.created_at) (λ e. sees scope dns_event (owns_event e)) (event_cutoff c now)
      c.prune_batch_size c.prune_max_batches t.events

abbrev pub prune_rate_events :
    DdnsConfig → DdnsScope → Instant → Tables → PruneSummary × List RateLimitEvent
prune_rate_events c scope now t =
    prune_table (λ e. e.created_at) (λ e. sees scope rate_limit_event (owns_rate_event t e))
      (rate_event_cutoff c now) c.prune_batch_size c.prune_max_batches t.rate_events

unfoldable pub run_retention_prune :
    DdnsConfig → DdnsScope → Instant → Tables → List PruneSummary × Tables
unfolding prune_table predicate
run_retention_prune c scope now t =
    let events = prune_events c scope now t in
    let rate_events = prune_rate_events c scope now t in
    (events.0 ∷ rate_events.0 ∷ [], record t { events = events.1; rate_events = rate_events.1 })
