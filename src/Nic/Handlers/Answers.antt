-- ===== src/Nic/Handlers/Answers.antt =====
-- What an admitted request is answered, and what a refused one is spared.
use atrium_ddns.Nic.Dns.{withdraw}
use atrium_ddns.Nic.Params.{delete_asked}
use atrium_ddns.Prelude.{[], ◌∷◌}
use atrium_ddns.Nic.Dns.Phase.{AreAnswers, AreAnswers-plans, AllAnswer, run_dns_phase-Answers}
use atrium_ddns.Provider.Network.Outcomes.{Answers}
use atrium_ddns.Nic.Load.Ownership.{load_plans-IsLoaded}
use atrium_ddns.Prelude.{◌≡◌, refl, Option, some, List, ap, map, ◌∙◌, All}
use atrium_ddns.Nic.Dns.{HostnamePlan}
use atrium_ddns.Nic.Persist.{persist_updates}
use atrium_ddns.Text.{join, Text}
use atrium_ddns.Address.{RecordType}
use atrium_ddns.Status.{Status, EventType}
use atrium_ddns.Store.{Tables, Session}
use atrium_ddns.Provider.Network.{Trace, Outcome, ok, raise}
use atrium_ddns.Auth.Header.{Request, client_address}
use atrium_ddns.Auth.Device.{DeviceAuth, scope}
use atrium_ddns.Nic.Dns.{HostnameResult, publish, run_dns_phase}
use atrium_ddns.Nic.Load.{Vault, load_plans}
use atrium_ddns.Nic.Events.{commit_after_dns, record_hostname_events}
use atrium_ddns.Nic.Admit.{Env, admitted, refused, admit}
use atrium_ddns.Nic.Handlers.{
  Response, Served, update_done, update, delete_done, delete, plain, wire, ◌∷◌, ◌++◌,
}
use atrium_ddns.Nic.Params.{update_asked, update_params, delete_asked, delete_params}
use atrium_ddns.Nic.Handlers.Atomic.{seen_outside}

-- The tables after an answered request, the commit taken.
abbrev update_tables :
    Env → DeviceAuth → Option Text → Text → RecordType → List HostnameResult → Tables → Tables
update_tables env auth client_ip ip rtype results t =
    record_hostname_events env.clock.logged auth EventType.update client_ip (some ip) results
      (persist_updates (scope auth) results ip rtype env.clock.persisted t)

-- An update that is answered: the results of the plans loaded for the names asked for, a line for each, and
-- what they leave to be committed.
pub record IsAnswered (env : Env) (auth : DeviceAuth) (client_ip : Option Text) (ip : Text)
    (rtype : RecordType) (requested : List Text) (s : Session) (t : Tables) (before : Trace)
    (response : Response) (s' : Session) (trace : Trace) : Type 0 where
  pub results : List HostnameResult
  pub asked : map (λ result. result.plan.requested) results ≡ requested
  pub answers :
      AreAnswers env.net env.registry env.config.dns_resolvers
        (publish ip (some rtype))
        (load_plans env.vault t auth requested)
        before
        results
        trace
  pub body : response ≡ plain (join 10 (map (λ result. wire result.status ++ b' ' ∷ ip) results))
  pub kept :
      s'
      ≡ commit_after_dns env.commits
          (record s { current = update_tables env auth client_ip ip rtype results t })

-- The handler ends with an answer, and so.
abbrev pub AnswersSo : (Response → Session → Trace → Type 0) → Served → Type 0
AnswersSo P ((ok response, s), trace) = P response s trace
AnswersSo P ((raise, s), trace) = ⊥

names_of_plans :
    (results : List HostnameResult)
    → map (λ result. result.plan.requested) results
      ≡ map
          (λ (plan : HostnamePlan). plan.requested)
          (map (λ (result : HostnameResult). result.plan) results)
names_of_plans [] = refl
names_of_plans (result ∷ results) =
    ap (λ (ns : List Text). result.plan.requested ∷ ns) (names_of_plans results)

names_of_answers :
    (vault : Vault) (t : Tables) (auth : DeviceAuth) (requested : List Text)
    (results : List HostnameResult)
    → map (λ result. result.plan) results ≡ load_plans vault t auth requested
    → map (λ result. result.plan.requested) results ≡ requested
names_of_answers vault t auth requested results e =
    names_of_plans results
    ∙ ap (map (λ (plan : HostnamePlan). plan.requested)) e
    ∙ (load_plans-IsLoaded vault t auth requested).1

update_done-Answers :
    (env : Env) (auth : DeviceAuth) (client_ip : Option Text) (ip : Text) (rtype : RecordType)
    (requested : List Text) (s : Session) (t : Tables) (before : Trace)
    (r : Outcome (List HostnameResult) × Trace)
    → Answers
        (AreAnswers env.net env.registry env.config.dns_resolvers
          (publish ip (some rtype))
          (load_plans env.vault t auth requested)
          before)
        r
    → AnswersSo
        (IsAnswered env auth client_ip ip rtype requested s t before)
        (update_done env auth client_ip ip rtype s t r)
unfolding update_done
update_done-Answers env auth client_ip ip rtype requested s t before (ok results, trace) h =
    record {
      results = results;
      asked = names_of_answers env.vault t auth requested results (AreAnswers-plans h);
      answers = h;
      body = refl;
      kept = refl;
    }
update_done-Answers env auth client_ip ip rtype requested s t before (raise, trace) h = elim h [ ]

-- An admitted update whose parameters pass, and none of whose backends ever raises, is answered
-- with an entry for every name asked for, in that order and joined by newlines: the status that
-- the statuses answered by the backends of the plan loaded for the name add up to, and the address.
-- Nobody but these backends is asked. Its rows are committed if the database takes them.
pub update-answers :
    (env : Env) (request : Request) (s : Session) (trace : Trace) (auth : DeviceAuth) (t : Tables)
    (ip : Text) (rtype : RecordType) (requested : List Text)
    → admit env request EventType.update (client_address request) s.current ≡ (admitted auth, t)
    → update_params request (client_address request) ≡ update_asked ip rtype requested
    → All
        (AllAnswer env.net env.registry env.config.dns_resolvers (publish ip (some rtype)))
        (load_plans env.vault t auth requested)
    → AnswersSo
        (IsAnswered env auth (client_address request) ip rtype requested s t trace)
        (update env request s trace)
unfolding update
update-answers env request s trace auth t ip rtype requested a p live =
    let plans = load_plans env.vault t auth requested in
    rw (a, p)
      (update_done-Answers env auth (client_address request) ip rtype requested s t trace
        (run_dns_phase env.net env.registry plans (publish ip (some rtype)) env.config.dns_resolvers
          trace)
        (run_dns_phase-Answers env.net env.registry plans (publish ip (some rtype))
          env.config.dns_resolvers trace live))

-- A delete that is answered, likewise.
pub record IsDeleted (env : Env) (auth : DeviceAuth) (client_ip ip : Option Text)
    (rtype : Option RecordType) (requested : List Text) (s : Session) (t : Tables) (before : Trace)
    (response : Response) (s' : Session) (trace : Trace) : Type 0 where
  pub results : List HostnameResult
  pub asked : map (λ result. result.plan.requested) results ≡ requested
  pub answers :
      AreAnswers env.net env.registry env.config.dns_resolvers
        (withdraw rtype)
        (load_plans env.vault t auth requested)
        before
        results
        trace
  pub body : response ≡ plain (join 10 (map (λ result. wire result.status) results))
  pub kept :
      s'
      ≡ commit_after_dns env.commits (record s {
        current =
            record_hostname_events env.clock.logged auth EventType.delete client_ip ip results t;
      })

delete_done-Answers :
    (env : Env) (auth : DeviceAuth) (client_ip ip : Option Text) (rtype : Option RecordType)
    (requested : List Text) (s : Session) (t : Tables) (before : Trace)
    (r : Outcome (List HostnameResult) × Trace)
    → Answers
        (AreAnswers env.net env.registry env.config.dns_resolvers
          (withdraw rtype)
          (load_plans env.vault t auth requested)
          before)
        r
    → AnswersSo
        (IsDeleted env auth client_ip ip rtype requested s t before)
        (delete_done env auth client_ip ip s t r)
unfolding delete_done
delete_done-Answers env auth client_ip ip rtype requested s t before (ok results, trace) h =
    record {
      results = results;
      asked = names_of_answers env.vault t auth requested results (AreAnswers-plans h);
      answers = h;
      body = refl;
      kept = refl;
    }
delete_done-Answers env auth client_ip ip rtype requested s t before (raise, trace) h = elim h [ ]

-- An admitted delete whose parameters pass, and none of whose backends ever raises, is answered
-- with an entry for every name asked for, in that order and joined by newlines: the status alone,
-- that the statuses answered by the backends of the plan loaded for the name add up to. Nobody but
-- these backends is asked. Its rows are committed if the database takes them.
pub delete-answers :
    (env : Env) (request : Request) (s : Session) (trace : Trace) (auth : DeviceAuth) (t : Tables)
    (ip : Option Text) (rtype : Option RecordType) (requested : List Text)
    → admit env request EventType.delete (client_address request) s.current ≡ (admitted auth, t)
    → delete_params request ≡ delete_asked ip rtype requested
    → All
        (AllAnswer env.net env.registry env.config.dns_resolvers (withdraw rtype))
        (load_plans env.vault t auth requested)
    → AnswersSo
        (IsDeleted env auth (client_address request) ip rtype requested s t trace)
        (delete env request s trace)
unfolding delete
delete-answers env request s trace auth t ip rtype requested a p live =
    let plans = load_plans env.vault t auth requested in
    rw (a, p)
      (delete_done-Answers env auth (client_address request) ip rtype requested s t trace
        (run_dns_phase env.net env.registry plans (withdraw rtype) env.config.dns_resolvers trace)
        (run_dns_phase-Answers env.net env.registry plans (withdraw rtype) env.config.dns_resolvers
          trace live))

-- An update that is not admitted is answered with the refusal alone, before its parameters are read,
-- and no provider or name server is asked.
pub update-refused :
    (env : Env) (request : Request) (s : Session) (trace : Trace) (status : Status) (t : Tables)
    → admit env request EventType.update (client_address request) s.current ≡ (refused status, t)
    → seen_outside (update env request s trace) ≡ (ok (plain (wire status)), trace)
unfolding update
update-refused env request s trace status t a = rw a refl

-- A delete that is not admitted is answered with the refusal alone, before its parameters are
-- read, and no provider or name server is asked.
pub delete-refused :
    (env : Env) (request : Request) (s : Session) (trace : Trace) (status : Status) (t : Tables)
    → admit env request EventType.delete (client_address request) s.current ≡ (refused status, t)
    → seen_outside (delete env request s trace) ≡ (ok (plain (wire status)), trace)
unfolding delete
delete-refused env request s trace status t a = rw a refl
