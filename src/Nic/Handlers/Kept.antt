-- ===== src/Nic/Handlers/Kept.antt =====
-- What a delete leaves of the host names.
use atrium_ddns.Nic.Params.{delete_asked}
use atrium_ddns.Prelude.{◌≡◌, refl, Option, List, Bool-cases, ap, inl, map, ◌∙◌, inr}
use atrium_ddns.Text.{join, Text}
use atrium_ddns.Status.{EventType}
use atrium_ddns.Store.{Tables, Session, Hostname}
use atrium_ddns.Provider.Network.{Trace, Outcome, ok, raise}
use atrium_ddns.Auth.Header.{Request, client_address}
use atrium_ddns.Auth.Device.{DeviceAuth}
use atrium_ddns.Nic.Dns.{HostnameResult}
use atrium_ddns.Nic.Events.{commit_after_dns, record_event, record_hostname_events}
use atrium_ddns.Nic.Events.Rows.{record_hostname_events-rows}
use atrium_ddns.Nic.Admit.{Env, Admission, admitted, refused, admit}
use atrium_ddns.Nic.Admit.Effects.{admit-hostnames}
use atrium_ddns.Nic.Handlers.{
  Response, Served, respond, refuse, delete_done, delete_checked, delete_admitted, delete, plain,
  wire,
}
use atrium_ddns.Nic.Params.{DeleteParams, delete_refused, delete_asked, delete_params}

pub record_hostname_events_hostnames :
    (env : Env) (auth : DeviceAuth) (event_type : EventType) (client_ip ip : Option Text)
    (results : List HostnameResult) (t : Tables)
    → (record_hostname_events env.clock.logged auth event_type client_ip ip results t).hostnames
      ≡ t.hostnames
record_hostname_events_hostnames env auth event_type client_ip ip results t =
    ap (λ (u : Tables). u.hostnames)
      (record_hostname_events-rows env.clock.logged auth event_type client_ip ip results t).others

-- The host names are as they were, in the database and in the session.
pub HostnamesKept : List Hostname → Served → Type 0
HostnamesKept hs served =
    (served.0.1.committed.hostnames ≡ hs) × (served.0.1.current.hostnames ≡ hs)

respond_kept :
    (env : Env) (response : Response) (s : Session) (t : Tables) (trace : Trace)
    (hs : List Hostname)
    → s.committed.hostnames ≡ hs
    → t.hostnames ≡ hs
    → HostnamesKept hs (respond env response s t trace)
unfolding HostnamesKept commit_after_dns
respond_kept env response s t trace hs e f = elim (Bool-cases env.commits) [
  | inl b ↦ rw b (f, f)
  | inr b ↦ rw b (e, e)
]

delete_done_kept :
    (env : Env) (auth : DeviceAuth) (client_ip ip : Option Text) (s : Session) (t : Tables)
    (r : Outcome (List HostnameResult) × Trace) (hs : List Hostname)
    → s.committed.hostnames ≡ hs
    → t.hostnames ≡ hs
    → HostnamesKept hs (delete_done env auth client_ip ip s t r)
unfolding delete_done HostnamesKept
delete_done_kept env auth client_ip ip s t (ok results, trace) hs e f =
    respond_kept env (plain (join 10 (map (λ result. wire result.status) results))) s
      (record_hostname_events env.clock.logged auth EventType.delete client_ip ip results t) trace
      hs e (record_hostname_events_hostnames env auth EventType.delete client_ip ip results t ∙ f)
delete_done_kept env auth client_ip ip s t (raise, trace) hs e f = (e, f)

delete_checked_kept :
    (env : Env) (auth : DeviceAuth) (client_ip : Option Text) (params : DeleteParams) (s : Session)
    (t : Tables) (trace : Trace) (hs : List Hostname)
    → s.committed.hostnames ≡ hs
    → t.hostnames ≡ hs
    → HostnamesKept hs (delete_checked env auth client_ip params s t trace)
unfolding refuse record_event
delete_checked_kept env auth client_ip (delete_refused status ip) s t trace hs e f =
    respond_kept env _ s _ trace hs e f
delete_checked_kept env auth client_ip (delete_asked ip rtype requested) s t trace hs e f =
    delete_done_kept env auth client_ip ip s t _ hs e f

delete_admitted_kept :
    (env : Env) (request : Request) (client_ip : Option Text) (s : Session) (a : Admission × Tables)
    (trace : Trace) (hs : List Hostname)
    → s.committed.hostnames ≡ hs
    → a.1.hostnames ≡ hs
    → HostnamesKept hs (delete_admitted env request client_ip s a trace)
delete_admitted_kept env request client_ip s (refused status, t) trace hs e f =
    respond_kept env _ s t trace hs e f
delete_admitted_kept env request client_ip s (admitted auth, t) trace hs e f =
    delete_checked_kept env auth client_ip (delete_params request) s t trace hs e f

-- A delete of a fresh session leaves every host name's row as it was, whatever it is asked and
-- whatever comes of it.
pub delete-hostnames :
    (env : Env) (request : Request) (t : Tables) (trace : Trace)
    → HostnamesKept t.hostnames (delete env request (record { committed = t; current = t }) trace)
unfolding delete
delete-hostnames env request t trace =
    delete_admitted_kept env request (client_address request)
      (record { committed = t; current = t })
      (admit env request EventType.delete (client_address request) t) trace t.hostnames refl
      (admit-hostnames env request EventType.delete (client_address request) t)
