-- ===== src/Worker/Devices.antt =====
-- `device_statuses` and `DeviceStatus.render_updates` (backend/src/atrium_ddns/worker_jobs.py).
pub mod Log
pub mod Board
use atrium_ddns.Prelude.{
  ℕ, ◌+◌, ◌*◌, Bool, true, false, ◌&&◌, not, Option, none, some, List, [], ◌∷◌, map, filter, length,
  leb, ◌==◌, if◌then◌else◌,
}
use atrium_ddns.Text.{Text, codes, decimal}
use atrium_ddns.Status.{Status, EventType, update, is_settled}
use atrium_ddns.Store.{Tables, Device, DnsEvent, Instant}
use atrium_ddns.Scope.{DdnsScope, sees, predicate, device, dns_event, owns_device, owns_event}
use atrium_ddns.Worker.Summary.{Liveness, never_seen, last_call_failed, idle, active}

pub record DeviceStatus : Type 0 where
  pub device_id : ℕ
  pub user_id : ℕ
  pub device_name : Text
  pub liveness : Liveness
  pub last_seen_at : Option Instant
  pub last_response_code : Option Status
  pub updates_in_window : Option ℕ
  pub window_days : ℕ

-- `str(self.updates_in_window)`.
abbrev text_of : Option ℕ → Text
text_of none = codes "None"
text_of (some n) = decimal n

unfoldable pub render_updates : DeviceStatus → Text
unfolding decimal
render_updates s = elim s.liveness [
  | never_seen ↦ codes "—"
  | last_call_failed ↦ codes "error"
  | idle ↦ text_of s.updates_in_window
  | active ↦ text_of s.updates_in_window
]

-- One day, in microseconds.
abbrev pub one_day : ℕ
one_day = 86400 * 1000000

abbrev pub select_devices : DdnsScope → Tables → List Device
select_devices scope t = filter (λ d. sees scope device (owns_device d)) t.devices

abbrev pub select_events : DdnsScope → Tables → List DnsEvent
select_events scope t = filter (λ e. sees scope dns_event (owns_event e)) t.events

abbrev pub event_of : ℕ → DnsEvent → Bool
event_of id e = elim e.device_id [ none ↦ false | some d ↦ d == id ]

abbrev pub code_of_last : Option Status → List DnsEvent → Option Status
code_of_last code [] = code
code_of_last code (e ∷ es) = code_of_last e.response_code es

-- `last_code.get(id)`: the code of the newest event of the device, which is the last one.
unfoldable pub last_code : DdnsScope → Tables → ℕ → Option Status
last_code scope t id = code_of_last none (filter (event_of id) (select_events scope t))

abbrev pub is_update : EventType → Bool
is_update update = true
is_update _ = false

abbrev pub has_settled : Option Status → Bool
has_settled none = false
has_settled (some code) = is_settled code

-- `created_at >= now - timedelta(days=window_days)`, an update, and good or nochg.
abbrev pub counts_in_window : Instant → ℕ → DnsEvent → Bool
counts_in_window now window_days e =
    leb now (e.created_at + window_days * one_day)
    && is_update e.event_type
    && has_settled e.response_code

-- `window_count.get(id, 0)`.
unfoldable pub window_count : DdnsScope → Tables → Instant → ℕ → ℕ → ℕ
window_count scope t now window_days id =
    length
      (filter (λ e. event_of id e && counts_in_window now window_days e) (select_events scope t))

-- `code is not None and code not in SUCCESS_RESPONSE_CODES`.
abbrev pub failed_code : Option Status → Bool
failed_code none = false
failed_code (some code) = not (is_settled code)

abbrev judge_seen : Option Status → ℕ → Liveness × Option ℕ
judge_seen code count =
    if failed_code code
    then (last_call_failed, some count)
    else if count == 0
    then (idle, some 0)
    else (active, some count)

abbrev pub judge_device : Option Instant → Option Status → ℕ → Liveness × Option ℕ
judge_device none code count = (never_seen, none)
judge_device (some _) code count = judge_seen code count

unfoldable pub device_status : DdnsScope → Tables → Instant → ℕ → Device → DeviceStatus
unfolding last_code window_count
device_status scope t now window_days d =
    let code = last_code scope t d.id in
    let judged = judge_device d.last_seen_at code (window_count scope t now window_days d.id) in
    record {
      device_id = d.id;
      user_id = d.user_id;
      device_name = d.name;
      liveness = judged.0;
      last_seen_at = d.last_seen_at;
      last_response_code = code;
      updates_in_window = judged.1;
      window_days = window_days;
    }

unfoldable pub device_statuses : DdnsScope → Tables → Instant → ℕ → List DeviceStatus
unfolding device_status
device_statuses scope t now window_days =
    map (device_status scope t now window_days) (select_devices scope t)
