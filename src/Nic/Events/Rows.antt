-- ===== src/Nic/Events/Rows.antt =====
-- How many rows a request's results leave, and whose they are.
use atrium_ddns.Prelude.{
  ℕ, suc, ◌+◌, ◌≡◌, refl, Option, some, List, [], ◌∷◌, ◌++◌, All, arith, length, length-append,
  All-append, ap, ◌∙◌, append_assoc, sym, append-nil,
}
use atrium_ddns.Text.{Text}
use atrium_ddns.Status.{Status, EventType}
use atrium_ddns.Store.{Tables, Instant, DnsEvent}
use atrium_ddns.Auth.Device.{DeviceAuth}
use atrium_ddns.Nic.Dns.{HostnamePlan, HostnameResult}
use atrium_ddns.Nic.Events.{
  record_event, record_attempts, record_hostname_events, by_device, record_result, attempt_entry,
}

-- A row for each attempt, and one where there was none.
pub rows_of : List (Text × Status) → ℕ
rows_of [] = 1
rows_of (attempt ∷ attempts) = length (attempt ∷ attempts)

pub rows : List HostnameResult → ℕ
rows [] = 0
rows (result ∷ results) = rows_of result.attempts + rows results

-- The event is of this device and its tenant.
pub IsOwn : DeviceAuth → DnsEvent → Type 0
IsOwn auth event = (event.user_id ≡ some auth.user_id) × (event.device_id ≡ some auth.device.id)

-- Nothing but so many rows of the device has been added to the log.
pub record IsLogged (auth : DeviceAuth) (n : ℕ) (t t' : Tables) : Type 0 where
  pub new : List DnsEvent
  pub appended : t'.events ≡ t.events ++ new
  pub counted : length new ≡ n
  pub own : All (IsOwn auth) new
  pub others : t' ≡ record t { events = t'.events }

none-IsLogged : (auth : DeviceAuth) (t : Tables) → IsLogged auth 0 t t
none-IsLogged auth t = record {
  new = [];
  appended = sym (append-nil t.events);
  counted = refl;
  own = tt;
  others = refl;
}

then-IsLogged :
    (auth : DeviceAuth) (m n : ℕ) (t u v : Tables)
    → IsLogged auth m t u
    → IsLogged auth n u v
    → IsLogged auth (m + n) t v
then-IsLogged auth m n t u v a b = record {
  new = a.new ++ b.new;
  appended =
      b.appended
      ∙ ap (λ (es : List DnsEvent). es ++ b.new) a.appended
      ∙ append_assoc t.events a.new b.new;
  counted = length-append a.new b.new ∙ omega (arith, a.counted, b.counted);
  own = All-append (IsOwn auth) a.new b.new a.own b.own;
  others = b.others ∙ ap (λ (s : Tables). record s { events = v.events }) a.others;
}

attempts-IsLogged :
    (logged : ℕ → Instant) (auth : DeviceAuth) (event_type : EventType) (client_ip ip : Option Text)
    (plan : HostnamePlan) (attempts : List (Text × Status)) (t : Tables)
    → IsLogged auth
        (length attempts)
        t
        (record_attempts logged auth event_type client_ip ip plan attempts t)
unfolding record_attempts record_event IsOwn
attempts-IsLogged logged auth event_type client_ip ip plan [] t = none-IsLogged auth t
attempts-IsLogged logged auth event_type client_ip ip plan ((backend_type, status) ∷ attempts) t =
    let t' =
      record_event logged (by_device auth)
        (attempt_entry event_type client_ip ip plan (some backend_type) status) t in
    let count : 1 + length attempts ≡ suc (length attempts) = omega arith in
    rw (sym count) (
      then-IsLogged auth 1 (length attempts) t t'
        (record_attempts logged auth event_type client_ip ip plan attempts t')
        (record {
          new = _;
          appended = refl;
          counted = refl;
          own = ((refl, refl), tt);
          others = refl;
        })
        (attempts-IsLogged logged auth event_type client_ip ip plan attempts t'))

result-IsLogged :
    (logged : ℕ → Instant) (auth : DeviceAuth) (event_type : EventType) (client_ip ip : Option Text)
    (plan : HostnamePlan) (status : Status) (attempts : List (Text × Status)) (t : Tables)
    → IsLogged auth
        (rows_of attempts)
        t
        (record_result logged auth event_type client_ip ip plan status attempts t)
unfolding record_attempts record_event IsOwn rows_of
result-IsLogged logged auth event_type client_ip ip plan status [] t = record {
  new = _;
  appended = refl;
  counted = refl;
  own = ((refl, refl), tt);
  others = refl;
}
result-IsLogged logged auth event_type client_ip ip plan status (attempt ∷ attempts) t =
    attempts-IsLogged logged auth event_type client_ip ip plan (attempt ∷ attempts) t

-- The results of a request add a row for every attempt, and one row for every name that reached no
-- provider; each row is of the device and of its tenant, the rows before are kept, and no other
-- table changes.
pub record_hostname_events-rows :
    (logged : ℕ → Instant) (auth : DeviceAuth) (event_type : EventType) (client_ip ip : Option Text)
    (results : List HostnameResult) (t : Tables)
    → IsLogged auth
        (rows results)
        t
        (record_hostname_events logged auth event_type client_ip ip results t)
unfolding record_hostname_events rows
record_hostname_events-rows logged auth event_type client_ip ip [] t = none-IsLogged auth t
record_hostname_events-rows logged auth event_type client_ip ip (result ∷ results) t =
    let t' =
      record_result logged auth event_type client_ip ip result.plan result.status result.attempts
        t in
    then-IsLogged auth (rows_of result.attempts) (rows results) t t'
      (record_hostname_events logged auth event_type client_ip ip results t')
      (result-IsLogged logged auth event_type client_ip ip result.plan result.status result.attempts
        t)
      (record_hostname_events-rows logged auth event_type client_ip ip results t')
