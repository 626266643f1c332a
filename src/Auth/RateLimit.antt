-- ===== src/Auth/RateLimit.antt =====
-- `effective_rate_limit` and `check_rate_limit`.
pub mod Window
use atrium_ddns.Prelude.{
  ℕ, ◌+◌, ◌*◌, Bool, true, false, ◌&&◌, ◌==◌, leb, filter, length, or_default, if◌then◌else◌,
}
use atrium_ddns.Prelude.Int.{ℤ, pos, leb_ℤ}
use atrium_ddns.Store.{Tables, Device, RateLimitEvent, Instant, add_rate_event}
use atrium_ddns.Scope.{select_rate_events}
use atrium_ddns.Auth.Device.{DeviceAuth, scope}

-- One minute, in microseconds.
abbrev pub rate_limit_window : ℕ
rate_limit_window = 60 * 1000000

-- `None` inherits, 0 mutes.
abbrev pub effective_rate_limit : Device → ℤ → ℤ
effective_rate_limit device default_per_minute =
    or_default device.rate_limit_per_minute default_per_minute

-- `created_at >= moment - RATE_LIMIT_WINDOW`.
abbrev pub in_window : Instant → RateLimitEvent → Bool
in_window moment e = leb moment (e.created_at + rate_limit_window)

unfoldable pub used_slots : DeviceAuth → Tables → Instant → ℕ
unfolding select_rate_events
used_slots auth t moment = length (
    filter (λ e. e.device_id == auth.device.id && in_window moment e)
      (select_rate_events (scope auth) t))

-- A refused request is not recorded.
unfoldable pub check_rate_limit : DeviceAuth → ℤ → Instant → Tables → Bool × Tables
unfolding used_slots
check_rate_limit auth default_per_minute moment t =
    let limit = effective_rate_limit auth.device default_per_minute in
    if leb_ℤ limit (pos 0)
    then (false, t)
    else if leb_ℤ limit (pos (used_slots auth t moment))
    then (false, t)
    else (true, add_rate_event (record { device_id = auth.device.id; created_at = moment }) t)
