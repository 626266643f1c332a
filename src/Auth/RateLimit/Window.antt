-- ===== src/Auth/RateLimit/Window.antt =====
-- When a request is within its device's limit, and how many fit in a window.
use atrium_ddns.Prelude.{
  ℕ, suc, ◌+◌, ◌≤◌, ◌≡◌, ◌⊎◌, inl, inr, Bool, true, false, ◌&&◌, ◌==◌, ==_refl, filter, length,
  arith, List, [], ◌∷◌, ◌++◌, any,
}
use atrium_ddns.Prelude.Int.{ℤ, pos, leb_ℤ}
use atrium_ddns.Store.{Tables, RateLimitEvent, Instant, add_rate_event}
use atrium_ddns.Auth.Device.{DeviceAuth, scope}
use atrium_ddns.Scope.{
  select_rate_events, sees, rate_limit_event, owns_rate_event, for_user_id, predicate,
  reaches_all_tenants,
}
use atrium_ddns.Auth.RateLimit.{
  rate_limit_window, in_window, effective_rate_limit, used_slots, check_rate_limit,
}

-- One more row at the end takes at most one more slot.
length-filter-filter-append :
    (p q : RateLimitEvent → Bool) (xs : List RateLimitEvent) (e : RateLimitEvent)
    → length (filter p (filter q (xs ++ e ∷ []))) ≤ suc (length (filter p (filter q xs)))
length-filter-filter-append p q [] e = ground arith
length-filter-filter-append p q (x ∷ xs) e = ground (arith, length-filter-filter-append p q xs e)

length-filter-filter-append_both :
    (p q : RateLimitEvent → Bool) (xs : List RateLimitEvent) (e : RateLimitEvent)
    → q e ≡ true
    → p e ≡ true
    → length (filter p (filter q (xs ++ e ∷ []))) ≡ suc (length (filter p (filter q xs)))
length-filter-filter-append_both p q [] e h k = ground arith
length-filter-filter-append_both p q (x ∷ xs) e h k =
    ground (arith, length-filter-filter-append_both p q xs e)

-- Weakening the test of the rows never frees a slot.
length-filter_mono :
    (p q : RateLimitEvent → Bool) (xs : List RateLimitEvent)
    → ((e : RateLimitEvent) → p e ≡ true → q e ≡ true)
    → length (filter p xs) ≤ length (filter q xs)
length-filter_mono p q [] h = omega arith
length-filter_mono p q (x ∷ xs) h = ground (arith, length-filter_mono p q xs, h x)

slots_later :
    (auth : DeviceAuth) (t : Tables) (m m' : Instant)
    → m ≤ m'
    → used_slots auth t m' ≤ used_slots auth t m
unfolding used_slots
slots_later auth t m m' le =
    length-filter_mono (λ e. e.device_id == auth.device.id && in_window m' e)
      (λ e. e.device_id == auth.device.id && in_window m e) (select_rate_events (scope auth) t)
      (λ e h. ground arith)

slots_added :
    (auth : DeviceAuth) (t : Tables) (e : RateLimitEvent) (m : Instant)
    → used_slots auth (add_rate_event e t) m ≤ suc (used_slots auth t m)
unfolding used_slots select_rate_events
slots_added auth t e m =
    length-filter-filter-append (λ x. x.device_id == auth.device.id && in_window m x)
      (λ x. sees (scope auth) rate_limit_event (owns_rate_event t x)) t.rate_events e

-- A request is refused exactly when the limit is used up or is not positive, and then nothing is
-- recorded; one that is accepted is recorded at its moment.
pub check_rate_limit_lem :
    (auth : DeviceAuth) (default_per_minute : ℤ) (moment : Instant) (t : Tables)
    → ((leb_ℤ (effective_rate_limit auth.device default_per_minute) (pos (used_slots auth t moment))
          ≡ true)
        × (check_rate_limit auth default_per_minute moment t ≡ (false, t)))
      ⊎ ((leb_ℤ
              (effective_rate_limit auth.device default_per_minute)
              (pos (used_slots auth t moment))
            ≡ false)
          × (check_rate_limit auth default_per_minute moment t ≡ (
            true,
            add_rate_event (record { device_id = auth.device.id; created_at = moment }) t,
          )))
unfolding check_rate_limit
check_rate_limit_lem auth default_per_minute moment t = ground arith

-- The requests of one device at these moments, one after the other.
pub serve_all : DeviceAuth → ℤ → List Instant → Tables → Tables
serve_all auth default_per_minute [] t = t
serve_all auth default_per_minute (m ∷ ms) t =
    serve_all auth default_per_minute ms (check_rate_limit auth default_per_minute m t).1

-- The last of these moments, and that none is before the one before it.
pub final : Instant → List Instant → Instant
final m [] = m
final m (n ∷ ns) = final n ns

abbrev pub IsOrdered : Instant → List Instant → Type 0
IsOrdered m [] = Unit
IsOrdered m (n ∷ ns) = (m ≤ n) × IsOrdered n ns

check_rate_limit-slots :
    (auth : DeviceAuth) (default_per_minute : ℤ) (n : ℕ) (moment : Instant) (t : Tables)
    → effective_rate_limit auth.device default_per_minute ≡ pos n
    → used_slots auth t moment ≤ n
    → used_slots auth (check_rate_limit auth default_per_minute moment t).1 moment ≤ n
check_rate_limit-slots auth default_per_minute n moment t h le =
    elim (check_rate_limit_lem auth default_per_minute moment t) [
      | inl (e, r) ↦ rw r le
      | inr (e, r) ↦
          let e' : leb_ℤ (pos n) (pos (used_slots auth t moment)) ≡ false = rw h at e in
          rw r (
            ground (
              arith,
              slots_added auth t (record { device_id = auth.device.id; created_at = moment })
                  moment,
            ))
    ]

-- However many requests a device with a limit of n sends in order of time, at most n recorded rows
-- count against it at the last of them, if at most n did at the moment before the first.
pub serve_all_bounded :
    (auth : DeviceAuth) (default_per_minute : ℤ) (n : ℕ) (moment : Instant) (moments : List Instant)
    (t : Tables)
    → effective_rate_limit auth.device default_per_minute ≡ pos n
    → used_slots auth t moment ≤ n
    → IsOrdered moment moments
    → used_slots auth (serve_all auth default_per_minute moments t) (final moment moments) ≤ n
unfolding serve_all final
serve_all_bounded auth default_per_minute n moment [] t h le o = le
serve_all_bounded auth default_per_minute n moment (m ∷ ms) t h le o =
    serve_all_bounded auth default_per_minute n m ms
      (check_rate_limit auth default_per_minute m t).1 h
      (check_rate_limit-slots auth default_per_minute n m t h
        (omega (arith, slots_later auth t moment m o.0, le)))
      o.1

-- A request of a device of the table that is accepted counts for one slot more at every moment up
-- to the end of its window.
pub accepted_takes_slot :
    (auth : DeviceAuth) (default_per_minute : ℤ) (moment later : Instant) (t : Tables)
    → (check_rate_limit auth default_per_minute moment t).0 ≡ true
    → any (λ d. d.id == auth.device.id && d.user_id == auth.user_id) t.devices ≡ true
    → later ≤ moment + rate_limit_window
    → used_slots auth (check_rate_limit auth default_per_minute moment t).1 later
      ≡ suc (used_slots auth t later)
unfolding used_slots select_rate_events for_user_id predicate reaches_all_tenants
accepted_takes_slot auth default_per_minute moment later t h listed le =
    elim (check_rate_limit_lem auth default_per_minute moment t) [
      | inl (e, r) ↦ absurd (cc (rw r at h))
      | inr (e, r) ↦ rw r (
          length-filter-filter-append_both (λ x. x.device_id == auth.device.id && in_window later x)
            (λ x. sees (scope auth) rate_limit_event (owns_rate_event t x)) t.rate_events
            (record { device_id = auth.device.id; created_at = moment }) listed
            (ground (arith, ==_refl auth.device.id)))
    ]
