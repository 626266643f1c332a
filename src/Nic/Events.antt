-- ===== src/Nic/Events.antt =====
-- `record_event`, `record_hostname_events` and `commit_after_dns`.
pub mod Rows
use atrium_ddns.Prelude.{
  ℕ, Bool, true, false, Option, none, some, List, [], ◌∷◌, length, take, ◌>>=◌, map_option,
}
use atrium_ddns.Text.{Text}
use atrium_ddns.Status.{Status, EventType}
use atrium_ddns.Store.{Tables, Session, Instant, Device, add_event}
use atrium_ddns.Auth.Device.{DeviceAuth, FailedAuth}
use atrium_ddns.Nic.Dns.{HostnamePlan, HostnameResult}

-- Whose row it is: a verified device's, or that of a refused credential.
pub data Actor : Type 0 where
  by_device : DeviceAuth → Actor
  by_refusal : FailedAuth → Actor

abbrev actor_device : Actor → Option Device
actor_device (by_device auth) = some auth.device
actor_device (by_refusal failed) = failed.device

abbrev pub actor_user_id : Actor → Option ℕ
actor_user_id (by_device auth) = some auth.user_id
actor_user_id (by_refusal failed) = failed.user_id

abbrev actor_user_email : Actor → Option Text
actor_user_email (by_device auth) = some auth.user_email
actor_user_email (by_refusal failed) = failed.user_email

-- What `record_event` is given besides the actor.
pub record Entry : Type 0 where
  pub event_type : EventType
  pub response_code : Status
  pub plan : Option HostnamePlan
  pub client_ip : Option Text
  pub ip : Option Text
  pub backend_type : Option Text
  pub message : Option Text

-- `logged n` is the clock at the row with that place in the table.
unfoldable pub record_event : (ℕ → Instant) → Actor → Entry → Tables → Tables
record_event logged actor entry t =
    add_event
      (record {
        created_at = logged (length t.events);
        user_id = actor_user_id actor;
        device_id = map_option (λ d. d.id) (actor_device actor);
        domain_id = entry.plan >>= λ plan. plan.domain_id;
        hostname_id = entry.plan >>= λ plan. plan.hostname_id;
        user_email = actor_user_email actor;
        device_name = map_option (λ d. d.name) (actor_device actor);
        domain_name = entry.plan >>= λ plan. plan.domain_name;
        hostname = map_option (λ plan. take 255 plan.requested) entry.plan;
        event_type = entry.event_type;
        response_code = some entry.response_code;
        client_ip = entry.client_ip;
        ip = entry.ip;
        backend_type = entry.backend_type;
        message = entry.message;
      })
      t

abbrev pub attempt_entry :
    EventType → Option Text → Option Text → HostnamePlan → Option Text → Status → Entry
attempt_entry event_type client_ip ip plan backend_type status = record {
  event_type = event_type;
  response_code = status;
  plan = some plan;
  client_ip = client_ip;
  ip = ip;
  backend_type = backend_type;
  message = none;
}

-- A row for each attempt, with that attempt's own status.
record_attempts :
    (ℕ → Instant)
    → DeviceAuth
    → EventType
    → Option Text
    → Option Text
    → HostnamePlan
    → List (Text × Status)
    → Tables
    → Tables
record_attempts logged auth event_type client_ip ip plan [] t = t
record_attempts logged auth event_type client_ip ip plan ((backend_type, status) ∷ attempts) t =
    record_attempts logged auth event_type client_ip ip plan attempts (
      record_event logged (by_device auth)
        (attempt_entry event_type client_ip ip plan (some backend_type) status) t)

-- One row where no provider was reached.
abbrev record_result :
    (ℕ → Instant)
    → DeviceAuth
    → EventType
    → Option Text
    → Option Text
    → HostnamePlan
    → Status
    → List (Text × Status)
    → Tables
    → Tables
record_result logged auth event_type client_ip ip plan status [] t =
    record_event logged (by_device auth) (attempt_entry event_type client_ip ip plan none status) t
record_result logged auth event_type client_ip ip plan status (attempt ∷ attempts) t =
    record_attempts logged auth event_type client_ip ip plan (attempt ∷ attempts) t

unfoldable pub record_hostname_events :
    (ℕ → Instant)
    → DeviceAuth
    → EventType
    → Option Text
    → Option Text
    → List HostnameResult
    → Tables
    → Tables
unfolding record_attempts
record_hostname_events logged auth event_type client_ip ip [] t = t
record_hostname_events logged auth event_type client_ip ip (result ∷ results) t =
    record_hostname_events logged auth event_type client_ip ip results (
      record_result logged auth event_type client_ip ip result.plan result.status result.attempts t)

-- `commit_after_dns`: a commit that fails is rolled back, and nothing is raised.
unfoldable pub commit_after_dns : Bool → Session → Session
commit_after_dns true s = record s { committed = s.current }
commit_after_dns false s = record s { current = s.committed }
