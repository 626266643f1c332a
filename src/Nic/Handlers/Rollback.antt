-- ===== src/Nic/Handlers/Rollback.antt =====
-- What is committed when.
use atrium_ddns.Prelude.{◌≡◌, refl, Bool, true, false, Option, List}
use atrium_ddns.Text.{Text}
use atrium_ddns.Address.{RecordType}
use atrium_ddns.Status.{EventType}
use atrium_ddns.Store.{Tables, Session}
use atrium_ddns.Provider.Network.{Trace, Outcome, ok, raise}
use atrium_ddns.Auth.Header.{Request, client_address}
use atrium_ddns.Auth.Device.{DeviceAuth}
use atrium_ddns.Nic.Dns.{HostnameResult}
use atrium_ddns.Nic.Events.{commit_after_dns}
use atrium_ddns.Nic.Admit.{Env, Admission, admitted, refused, admit}
use atrium_ddns.Nic.Handlers.{
  Response, Served, respond, refuse, update_done, update_checked, update_admitted, update,
}
use atrium_ddns.Nic.Params.{UpdateParams, update_refused, update_asked, update_params}

-- The database holds what the request saw last, or else what it held before.
pub data IsAtomic (s : Session) : Bool → Served → Type 0 where
  committed :
      (response : Response) (t : Tables) (trace : Trace)
      → IsAtomic s true ((ok response, record { committed = t; current = t }), trace)
  rolled_back :
      (response : Response) (trace : Trace)
      → IsAtomic s false
          ((ok response, record { committed = s.committed; current = s.committed }), trace)
  broken_off :
      (commits : Bool) (t : Tables) (trace : Trace)
      → IsAtomic s commits ((raise, record { committed = s.committed; current = t }), trace)

respond-IsAtomic :
    (env : Env) (response : Response) (s : Session) (t : Tables) (trace : Trace) (b : Bool)
    → env.commits ≡ b
    → IsAtomic s b (respond env response s t trace)
unfolding commit_after_dns
respond-IsAtomic env response s t trace true e = rw e (committed response t trace)
respond-IsAtomic env response s t trace false e = rw e (rolled_back response trace)

update_done-IsAtomic :
    (env : Env) (auth : DeviceAuth) (client_ip : Option Text) (ip : Text) (rtype : RecordType)
    (s : Session) (t : Tables) (r : Outcome (List HostnameResult) × Trace)
    → IsAtomic s env.commits (update_done env auth client_ip ip rtype s t r)
unfolding update_done
update_done-IsAtomic env auth client_ip ip rtype s t (ok results, trace) =
    respond-IsAtomic env _ s _ trace env.commits refl
update_done-IsAtomic env auth client_ip ip rtype s t (raise, trace) = broken_off env.commits t trace

update_checked-IsAtomic :
    (env : Env) (auth : DeviceAuth) (client_ip : Option Text) (params : UpdateParams) (s : Session)
    (t : Tables) (trace : Trace)
    → IsAtomic s env.commits (update_checked env auth client_ip params s t trace)
unfolding refuse
update_checked-IsAtomic env auth client_ip (update_refused status ip) s t trace =
    respond-IsAtomic env _ s _ trace env.commits refl
update_checked-IsAtomic env auth client_ip (update_asked ip rtype requested) s t trace =
    update_done-IsAtomic env auth client_ip ip rtype s t _

update_admitted-IsAtomic :
    (env : Env) (request : Request) (client_ip : Option Text) (s : Session) (a : Admission × Tables)
    (trace : Trace)
    → IsAtomic s env.commits (update_admitted env request client_ip s a trace)
update_admitted-IsAtomic env request client_ip s (refused status, t) trace =
    respond-IsAtomic env _ s t trace env.commits refl
update_admitted-IsAtomic env request client_ip s (admitted auth, t) trace =
    update_checked-IsAtomic env auth client_ip (update_params request client_ip) s t trace

-- An answered update is in the database whole if the commit was taken and not at all if it failed; one
-- that ends in an exception has committed nothing.
pub update-IsAtomic :
    (env : Env) (request : Request) (s : Session) (trace : Trace)
    → IsAtomic s env.commits (update env request s trace)
unfolding update
update-IsAtomic env request s trace =
    update_admitted-IsAtomic env request (client_address request) s
      (admit env request EventType.update (client_address request) s.current) trace
