-- ===== src/Nic/Handlers/Atomic.antt =====
-- How the answer of an update and the commit depend on one another.
use atrium_ddns.Prelude.{◌≡◌, refl, Bool, Option, some, List}
use atrium_ddns.Text.{Text}
use atrium_ddns.Address.{RecordType}
use atrium_ddns.Status.{EventType}
use atrium_ddns.Store.{Tables, Session}
use atrium_ddns.Provider.Network.{Trace, Outcome, ok, raise}
use atrium_ddns.Auth.Header.{Request, client_address}
use atrium_ddns.Auth.Device.{DeviceAuth}
use atrium_ddns.Nic.Dns.{HostnameResult, publish, run_dns_phase}
use atrium_ddns.Nic.Load.{load_plans}
use atrium_ddns.Nic.Admit.{Env, Admission, admitted, refused, admit}
use atrium_ddns.Nic.Admit.Effects.{with_commit, admit_outside}
use atrium_ddns.Nic.Handlers.{
  Response, Served, refuse, update_done, update_checked, update_admitted, update,
}
use atrium_ddns.Nic.Params.{UpdateParams, update_refused, update_asked, update_params}

-- Answer and calls.
abbrev pub seen_outside : Served → Outcome Response × Trace
seen_outside served = (served.0.0, served.1)

update_done_outside :
    (b : Bool) (env : Env) (auth : DeviceAuth) (client_ip : Option Text) (ip : Text)
    (rtype : RecordType) (s : Session) (t : Tables) (r : Outcome (List HostnameResult) × Trace)
    → seen_outside (update_done (with_commit b env) auth client_ip ip rtype s t r)
      ≡ seen_outside (update_done env auth client_ip ip rtype s t r)
unfolding update_done
update_done_outside b env auth client_ip ip rtype s t (ok results, trace) = refl
update_done_outside b env auth client_ip ip rtype s t (raise, trace) = refl

update_checked_outside :
    (b : Bool) (env : Env) (auth : DeviceAuth) (client_ip : Option Text) (params : UpdateParams)
    (s : Session) (t : Tables) (trace : Trace)
    → seen_outside (update_checked (with_commit b env) auth client_ip params s t trace)
      ≡ seen_outside (update_checked env auth client_ip params s t trace)
unfolding refuse
update_checked_outside b env auth client_ip (update_refused status ip) s t trace = refl
update_checked_outside b env auth client_ip (update_asked ip rtype requested) s t trace =
    update_done_outside b env auth client_ip ip rtype s t (
      run_dns_phase env.net env.registry (load_plans env.vault t auth requested)
        (publish ip (some rtype)) env.config.dns_resolvers trace)

update_admitted_outside :
    (b : Bool) (env : Env) (request : Request) (client_ip : Option Text) (s : Session)
    (a : Admission × Tables) (trace : Trace)
    → seen_outside (update_admitted (with_commit b env) request client_ip s a trace)
      ≡ seen_outside (update_admitted env request client_ip s a trace)
update_admitted_outside b env request client_ip s (refused status, t) trace = refl
update_admitted_outside b env request client_ip s (admitted auth, t) trace =
    update_checked_outside b env auth client_ip (update_params request client_ip) s t trace

-- Whether the database takes the commit or not, the client is answered the same and the same calls are
-- made.
pub update-commit :
    (b : Bool) (env : Env) (request : Request) (s : Session) (trace : Trace)
    → seen_outside (update (with_commit b env) request s trace)
      ≡ seen_outside (update env request s trace)
unfolding update
update-commit b env request s trace =
    rw (admit_outside b env request EventType.update (client_address request) s.current) (
      update_admitted_outside b env request (client_address request) s
        (admit env request EventType.update (client_address request) s.current) trace)
