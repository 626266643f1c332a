-- ===== src/Nic/Handlers.antt =====
-- The handlers of `/nic/checkip`, `/nic/update` and `/nic/delete`.
pub mod Atomic
pub mod Rollback
pub mod Answers
pub mod Kept
use atrium_ddns.Prelude.{
  Bool, false, Option, none, some, List, [], ◌∷◌, ◌++◌, map, or_default, if◌then◌else◌,
}
use atrium_ddns.Text.{Text, codes, text_eq, join}
use atrium_ddns.Address.{RecordType, normalise_address, getiptype}
use atrium_ddns.Hostname.{split_hostnames}
use atrium_ddns.Status.{Status, wire, unknown_service, notfqdn, EventType}
use atrium_ddns.Store.{Tables, Session}
use atrium_ddns.Provider.Network.{Trace, Outcome, ok, raise}
use atrium_ddns.Auth.Header.{Request, client_address}
use atrium_ddns.Auth.Device.{DeviceAuth, scope}
use atrium_ddns.Nic.Dns.{HostnameResult, publish, withdraw, run_dns_phase}
use atrium_ddns.Nic.Load.{load_plans}
use atrium_ddns.Nic.Events.{by_device, record_event, record_hostname_events, commit_after_dns}
use atrium_ddns.Nic.Persist.{persist_updates}
use atrium_ddns.Nic.Admit.{Env, Admission, admitted, refused, refusal_entry, admit}
use atrium_ddns.Nic.Params.{
  UpdateParams, update_refused, update_asked, update_params, DeleteParams, delete_refused,
  delete_asked, delete_params,
}

-- An answer: 200 with a text or a page, or 405 with `Allow: GET`.
pub data Response : Type 0 where
  plain html : Text → Response
  method_not_allowed : Response

-- What a request leaves: an answer or an exception, the session, and the calls made.
abbrev pub Served : Type 0
Served = (Outcome Response × Session) × Trace

abbrev respond : Env → Response → Session → Tables → Trace → Served
respond env response s t trace =
    ((ok response, commit_after_dns env.commits (record s { current = t })), trace)

-- `_refuse`.
unfoldable pub refuse :
    Env
    → Status
    → DeviceAuth
    → EventType
    → Option Text
    → Option Text
    → Session
    → Tables
    → Trace
    → Served
refuse env status auth event_type client_ip ip s t trace =
    respond env (plain (wire status)) s
      (record_event env.clock.logged (by_device auth)
        (refusal_entry event_type status client_ip ip none) t)
      trace

-- `f"{result.status} {ip}"`.
abbrev pub update_line : Text → HostnameResult → Text
update_line ip result = wire result.status ++ b' ' ∷ ip

unfoldable pub update_done :
    Env
    → DeviceAuth
    → Option Text
    → Text
    → RecordType
    → Session
    → Tables
    → Outcome (List HostnameResult) × Trace
    → Served
update_done env auth client_ip ip rtype s t (raise, trace) =
    ((raise, record s { current = t }), trace)
update_done env auth client_ip ip rtype s t (ok results, trace) =
    respond env (plain (join 10 (map (update_line ip) results))) s
      (record_hostname_events env.clock.logged auth EventType.update client_ip (some ip) results
        (persist_updates (scope auth) results ip rtype env.clock.persisted t))
      trace

abbrev pub update_checked :
    Env → DeviceAuth → Option Text → UpdateParams → Session → Tables → Trace → Served
update_checked env auth client_ip (update_refused status ip) s t trace =
    refuse env status auth EventType.update client_ip ip s t trace
update_checked env auth client_ip (update_asked ip rtype requested) s t trace =
    update_done env auth client_ip ip rtype s t (
      run_dns_phase env.net env.registry (load_plans env.vault t auth requested)
        (publish ip (some rtype)) env.config.dns_resolvers trace)

abbrev update_admitted : Env → Request → Option Text → Session → Admission × Tables → Trace → Served
update_admitted env request client_ip s (refused status, t) trace =
    respond env (plain (wire status)) s t trace
update_admitted env request client_ip s (admitted auth, t) trace =
    update_checked env auth client_ip (update_params request client_ip) s t trace

unfoldable pub update : Env → Request → Session → Trace → Served
update env request s trace =
    update_admitted env request (client_address request) s
      (admit env request EventType.update (client_address request) s.current) trace

unfoldable pub delete_done :
    Env
    → DeviceAuth
    → Option Text
    → Option Text
    → Session
    → Tables
    → Outcome (List HostnameResult) × Trace
    → Served
delete_done env auth client_ip ip s t (raise, trace) = ((raise, record s { current = t }), trace)
delete_done env auth client_ip ip s t (ok results, trace) =
    respond env (plain (join 10 (map (λ result. wire result.status) results))) s
      (record_hostname_events env.clock.logged auth EventType.delete client_ip ip results t) trace

abbrev delete_checked :
    Env → DeviceAuth → Option Text → DeleteParams → Session → Tables → Trace → Served
delete_checked env auth client_ip (delete_refused status ip) s t trace =
    refuse env status auth EventType.delete client_ip ip s t trace
delete_checked env auth client_ip (delete_asked ip rtype requested) s t trace =
    delete_done env auth client_ip ip s t (
      run_dns_phase env.net env.registry (load_plans env.vault t auth requested) (withdraw rtype)
        env.config.dns_resolvers trace)

abbrev delete_admitted : Env → Request → Option Text → Session → Admission × Tables → Trace → Served
delete_admitted env request client_ip s (refused status, t) trace =
    respond env (plain (wire status)) s t trace
delete_admitted env request client_ip s (admitted auth, t) trace =
    delete_checked env auth client_ip (delete_params request) s t trace

unfoldable pub delete : Env → Request → Session → Trace → Served
delete env request s trace =
    delete_admitted env request (client_address request) s
      (admit env request EventType.delete (client_address request) s.current) trace

-- `CHECKIP_HTML`.
abbrev checkip_html : Text → Text
checkip_html ip =
    codes "<html><head><title>Current IP Check</title></head>"
    ++ codes "<body>Current IP Address: "
    ++ ip
    ++ codes "</body></html>"

abbrev is_plain : Option Text → Bool
is_plain none = false
is_plain (some format) = text_eq format (codes "plain")

unfoldable pub checkip : Request → Response
checkip request =
    let address = or_default (client_address request) [] in
    if is_plain request.format then plain address else html (checkip_html address)

-- The methods that the routes know. `HEAD` is served where nothing is written.
pub data Method : Type 0 where
  get head : Method

-- `update`, `update_head`, `delete` and `delete_head`, by the method.
unfoldable pub serve_update : Method → Env → Request → Session → Trace → Served
serve_update get env request s trace = update env request s trace
serve_update head env request s trace = ((ok method_not_allowed, s), trace)

unfoldable pub serve_delete : Method → Env → Request → Session → Trace → Served
serve_delete get env request s trace = delete env request s trace
serve_delete head env request s trace = ((ok method_not_allowed, s), trace)
