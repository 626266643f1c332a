-- ===== src/Api/Manual.antt =====
-- `manual_update` (backend/src/atrium_ddns/router.py): publishing an address for a name without waiting for
-- its device.
pub mod Callers
pub mod Report
pub mod Answers
use atrium_ddns.Prelude.{
  ℕ, Bool, true, false, ◌||◌, not, Option, none, some, List, [], ◌∷◌, length, ltb, if◌then◌else◌,
}
use atrium_ddns.Prelude.Int.{ℤ}
use atrium_ddns.Text.{Text, is_empty}
use atrium_ddns.Address.{RecordType, normalise_address, getiptype}
use atrium_ddns.Status.{Status, good, nochg, abuse, is_good, EventType}
use atrium_ddns.Store.{Tables, Session, Domain, Hostname}
use atrium_ddns.Scope.{DdnsScope}
use atrium_ddns.Provider.Network.{Trace, Outcome, ok, raise}
use atrium_ddns.Auth.Device.{DeviceAuth, scope}
use atrium_ddns.Auth.RateLimit.{effective_rate_limit, check_rate_limit}
use atrium_ddns.Nic.Dns.{BackendPlan, HostnamePlan, HostnameResult, publish, run_dns_phase}
use atrium_ddns.Nic.Load.{load_plans}
use atrium_ddns.Nic.Events.{
  by_device, Entry, record_event, record_hostname_events, commit_after_dns,
}
use atrium_ddns.Nic.Persist.{persist_updates}
use atrium_ddns.Nic.Admit.{Env, limit_message}
use atrium_ddns.Api.Replies.{
  not_found, conflict, unprocessable, too_many, unavailable, Reply, refused, replied, ◌>>=◌, ◌>>◌,
  required, refuse_if,
}
use atrium_ddns.Api.Rows.{get_device}
use atrium_ddns.Api.Publishing.{load_publishing}
use atrium_ddns.Api.Adopt.{auth_for}

pub record BackendAttemptOut : Type 0 where
  pub backend_id : ℕ
  pub backend_type : Text
  pub status : Status

pub record ManualUpdateOut : Type 0 where
  pub hostname_id : ℕ
  pub name : Text
  pub ip : Text
  pub rtype : RecordType
  pub status : Status
  pub attempts : List BackendAttemptOut
  pub published : Bool
  pub rate_limit_per_minute : ℤ
  pub success_response_codes : List Status

-- What is published, and on whose account.
pub record Checked : Type 0 where
  pub hostname : Hostname
  pub domain : Domain
  pub auth : DeviceAuth
  pub ip : Text
  pub rtype : RecordType

-- The refusals before the rate limit; the length of the address is looked at first.
unfoldable pub check_request : DdnsScope → ℕ → Text → Tables → Reply Checked
unfolding load_publishing get_device normalise_address getiptype
check_request scope id body_ip t = do
  refuse_if unprocessable (is_empty body_ip || ltb 45 (length body_ip))
  loaded ← load_publishing scope t id
  device_id ← required conflict loaded.0.device_id
  device ← required not_found (get_device scope t device_id)
  ip ← required unprocessable (normalise_address body_ip)
  rtype ← required unprocessable (getiptype ip)
  replied (record {
    hostname = loaded.0;
    domain = loaded.1;
    auth = auth_for t loaded.1 device;
    ip = ip;
    rtype = rtype;
  })

-- The plan that stands for the name in the event of a refusal.
abbrev refused_plan : Checked → HostnamePlan
refused_plan c = record {
  requested = c.hostname.name;
  lookup = c.hostname.name;
  hostname_id = some c.hostname.id;
  domain_id = some c.domain.id;
  domain_name = some c.domain.name;
  backends = [];
}

abbrev abuse_entry : Checked → ℤ → Entry
abuse_entry c limit = record {
  event_type = EventType.manual_update;
  response_code = abuse;
  plan = some (refused_plan c);
  client_ip = none;
  ip = some c.ip;
  backend_type = none;
  message = some (limit_message limit);
}

-- `zip(published_ids, result.attempts)`.
abbrev pub attempts_of : List BackendPlan → List (Text × Status) → List BackendAttemptOut
attempts_of (b ∷ bs) ((backend_type, status) ∷ attempts) =
    record { backend_id = b.backend_id; backend_type = backend_type; status = status }
    ∷ attempts_of bs attempts
attempts_of _ _ = []

abbrev backends_of : List HostnamePlan → List BackendPlan
backends_of [] = []
backends_of (plan ∷ plans) = plan.backends

abbrev pub manual_out : Env → Checked → List HostnamePlan → HostnameResult → ManualUpdateOut
manual_out env c plans result = record {
  hostname_id = c.hostname.id;
  name = c.hostname.name;
  ip = c.ip;
  rtype = c.rtype;
  status = result.status;
  attempts = attempts_of (backends_of plans) result.attempts;
  published = is_good result.status;
  rate_limit_per_minute = effective_rate_limit c.auth.device env.config.rate_limit_per_minute;
  success_response_codes = good ∷ nochg ∷ [];
}

-- An answer or an exception, the session, and the calls made.
abbrev pub Served : Type 0
Served = (Outcome (Reply ManualUpdateOut) × Session) × Trace

-- The results are persisted and logged; `results[0]` of none raises.
unfoldable pub manual_done :
    Env
    → Checked
    → List HostnamePlan
    → Session
    → Tables
    → Outcome (List HostnameResult) × Trace
    → Served
manual_done env c plans s t (raise, trace) = ((raise, record s { current = t }), trace)
manual_done env c plans s t (ok [], trace) = ((raise, record s { current = t }), trace)
manual_done env c plans s t (ok (result ∷ results), trace) =
    let t' =
      record_hostname_events env.clock.logged c.auth EventType.manual_update none (some c.ip)
        (result ∷ results)
        (persist_updates (scope c.auth) (result ∷ results) c.ip c.rtype env.clock.persisted t) in
    (
      (
        ok (replied (manual_out env c plans result)),
        commit_after_dns env.commits (record s { current = t' }),
      ),
      trace,
    )

-- `readable` is false where a credential cannot be decrypted: nothing is committed then.
unfoldable pub manual_charged : Env → Bool → Checked → Session → Bool × Tables → Trace → Served
manual_charged env readable c s (false, t) trace =
    let limit = effective_rate_limit c.auth.device env.config.rate_limit_per_minute in
    let t' = record_event env.clock.logged (by_device c.auth) (abuse_entry c limit) t in
    ((ok (refused too_many), commit_after_dns env.commits (record s { current = t' })), trace)
manual_charged env false c s (true, t) trace =
    ((ok (refused unavailable), record s { current = t }), trace)
manual_charged env true c s (true, t) trace =
    let plans = load_plans env.vault t c.auth (c.hostname.name ∷ []) in
    manual_done env c plans s t (
      run_dns_phase env.net env.registry plans (publish c.ip (some c.rtype))
        env.config.dns_resolvers trace)

abbrev manual_checked : Env → Bool → Session → Reply Checked → Trace → Served
manual_checked env readable s (refused r) trace = ((ok (refused r), s), trace)
manual_checked env readable s (replied c) trace =
    manual_charged env readable c s
      (check_rate_limit c.auth env.config.rate_limit_per_minute env.clock.charged s.current) trace

unfoldable pub manual_update : Env → Bool → DdnsScope → ℕ → Text → Session → Trace → Served
unfolding check_request manual_charged
manual_update env readable scope id body_ip s trace =
    manual_checked env readable s (check_request scope id body_ip s.current) trace
