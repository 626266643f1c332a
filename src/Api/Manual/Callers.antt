-- ===== src/Api/Manual/Callers.antt =====
-- What publishing depends on besides the caller, the rows of the rate limit and the log.
use atrium_ddns.Prelude.{ℕ, ◌≡◌, refl, sym, ap, ◌∙◌, none, List, []}
use atrium_ddns.Text.{Text}
use atrium_ddns.Address.{RecordType}
use atrium_ddns.Store.{Tables, Instant}
use atrium_ddns.Scope.{select_hostnames, for_user_id}
use atrium_ddns.Auth.Device.{DeviceAuth, scope}
use atrium_ddns.Auth.Device.Attribution.{apart_from_callers}
use atrium_ddns.Nic.Dns.{HostnameResult}
use atrium_ddns.Nic.Load.{Vault, load_plans, requested_rows, locked_owners, resolved_plan}
use atrium_ddns.Store.Selection.{resolve_backends}
use atrium_ddns.Nic.Persist.{persist_updates}
use atrium_ddns.Nic.Persist.Callers.{persist_updates-apart_from_callers}

-- A caller who has only the ids.
abbrev pub caller_of : ℕ → ℕ → DeviceAuth
caller_of device_id user_id = record {
  device = record {
    id = device_id;
    user_id = user_id;
    username = [];
    password_hash = [];
    name = [];
    last_seen_at = none;
    last_ip_v4 = none;
    last_ip_v6 = none;
    last_user_agent = none;
    rate_limit_per_minute = none;
  };
  user_id = user_id;
  user_email = [];
}

load_plans-caller_of :
    (vault : Vault) (t : Tables) (auth : DeviceAuth) (names : List Text)
    → load_plans vault t auth names
      ≡ load_plans vault (apart_from_callers t) (caller_of auth.device.id auth.user_id) names
unfolding load_plans requested_rows select_hostnames locked_owners resolved_plan resolve_backends
load_plans-caller_of vault t auth names = refl

-- Two requests of one device and one owner, over tables that differ in what admission changes.
module _ (auth auth' : DeviceAuth) (t t' : Tables) (same_device : auth.device.id ≡ auth'.device.id)
    (same_user : auth.user_id ≡ auth'.user_id)
    (same_tables : apart_from_callers t ≡ apart_from_callers t') where
  pub load_plans-same :
      (vault : Vault) (names : List Text)
      → load_plans vault t auth names ≡ load_plans vault t' auth' names
  load_plans-same vault names =
      load_plans-caller_of vault t auth names
      ∙ ap (λ u. load_plans vault u (caller_of auth.device.id auth.user_id) names) same_tables
      ∙ ap (λ d. load_plans vault (apart_from_callers t') (caller_of d auth.user_id) names)
          same_device
      ∙ ap (λ u. load_plans vault (apart_from_callers t') (caller_of auth'.device.id u) names)
          same_user
      ∙ sym (load_plans-caller_of vault t' auth' names)

  pub persist_updates-same :
      (results : List HostnameResult) (ip : Text) (rtype : RecordType) (moment : Instant)
      → (persist_updates (scope auth) results ip rtype moment t).hostnames
        ≡ (persist_updates (scope auth') results ip rtype moment t').hostnames
  persist_updates-same results ip rtype moment =
      ap (λ (u : Tables). u.hostnames)
        (persist_updates-apart_from_callers (scope auth) results ip rtype moment t
          ∙ ap (persist_updates (scope auth) results ip rtype moment) same_tables
          ∙ ap
              (λ u. persist_updates (for_user_id u) results ip rtype moment (apart_from_callers t'))
              same_user
          ∙ sym (persist_updates-apart_from_callers (scope auth') results ip rtype moment t'))
