-- ===== src/Api/Manual/Answers.antt =====
-- A manual update next to the device's own.
use atrium_ddns.Prelude.{
  ℕ, ◌≡◌, refl, sym, ap, ◌∙◌, Bool, true, false, Option, none, some, List, [], ◌∷◌, All, map,
}
use atrium_ddns.Text.{Text}
use atrium_ddns.Status.{EventType}
use atrium_ddns.Store.{Tables, Session}
use atrium_ddns.Scope.{DdnsScope}
use atrium_ddns.Provider.Network.{Trace, Outcome, ok, raise}
use atrium_ddns.Provider.Network.Outcomes.{Answers}
use atrium_ddns.Auth.Device.{DeviceAuth, scope}
use atrium_ddns.Auth.RateLimit.{check_rate_limit}
use atrium_ddns.Nic.Dns.{HostnamePlan, HostnameResult, publish, run_dns_phase}
use atrium_ddns.Nic.Dns.Phase.{
  IsAnswer, AreAnswers, answered, answered_all, AllAnswer, run_dns_phase-Answers,
}
use atrium_ddns.Nic.Load.{load_plans}
use atrium_ddns.Nic.Load.Ownership.{load_plans-IsLoaded}
use atrium_ddns.Nic.Events.{commit_after_dns, record_hostname_events}
use atrium_ddns.Nic.Persist.{persist_updates}
use atrium_ddns.Nic.Admit.{Env, Admission, admitted, admit}
use atrium_ddns.Nic.Admit.Effects.{check_rate_limit_apart, admit-apart_from_callers}
use atrium_ddns.Auth.Device.Attribution.{apart_from_callers}
use atrium_ddns.Auth.Header.{Request, client_address}
use atrium_ddns.Api.Manual.Callers.{load_plans-same, persist_updates-same}
use atrium_ddns.Nic.Params.{update_asked, update_params}
use atrium_ddns.Nic.Handlers.{update, update_done}
use atrium_ddns.Nic.Handlers.Kept.{record_hostname_events_hostnames}
use atrium_ddns.Api.Manual.Report.{
  shown_attempts, AreFirst, attempts_of-AreFirst, attempts_of-IsAnswer,
}
use atrium_ddns.Api.Replies.{replied}
use atrium_ddns.Api.Manual.{
  ManualUpdateOut, Checked, Served, manual_out, manual_done, manual_charged, manual_update,
  check_request,
}

-- A publish that is answered, next to what the device's own request leaves: the name's plan, its result, and
-- what is the same.
pub record IsPublished (env : Env) (c : Checked) (t : Tables) (before : Trace)
    (wire : atrium_ddns.Nic.Handlers.Served) (served : Served) : Type 0 where
  pub plan : HostnamePlan
  pub loaded : load_plans env.vault t c.auth (c.hostname.name ∷ []) ≡ plan ∷ []
  pub result : HostnameResult
  pub answer :
      IsAnswer env.net env.registry env.config.dns_resolvers
        (publish c.ip (some c.rtype))
        plan
        before
        result
        served.1
  pub reply : ManualUpdateOut
  pub out : served.0.0 ≡ ok (replied reply)
  pub aggregated : reply.status ≡ result.status
  pub attempts : shown_attempts reply.attempts ≡ result.attempts
  pub bindings : AreFirst plan.backends reply.attempts
  pub calls : served.1 ≡ wire.1
  pub current : served.0.1.current.hostnames ≡ wire.0.1.current.hostnames
  pub committed : served.0.1.committed.hostnames ≡ wire.0.1.committed.hostnames

commit_hostnames :
    (commits : Bool) (s : Session) (u v : Tables)
    → u.hostnames ≡ v.hostnames
    → ((commit_after_dns commits (record s { current = u })).current.hostnames
        ≡ (commit_after_dns commits (record s { current = v })).current.hostnames)
      × ((commit_after_dns commits (record s { current = u })).committed.hostnames
          ≡ (commit_after_dns commits (record s { current = v })).committed.hostnames)
unfolding commit_after_dns
commit_hostnames true s u v e = (e, e)
commit_hostnames false s u v e = (refl, refl)

manual_done-IsPublished :
    (env : Env) (c : Checked) (auth : DeviceAuth) (client_ip : Option Text)
    (plans : List HostnamePlan) (s : Session) (t u : Tables) (before : Trace)
    (r : Outcome (List HostnameResult) × Trace)
    → load_plans env.vault t c.auth (c.hostname.name ∷ []) ≡ plans
    → ((results : List HostnameResult)
        → (persist_updates (scope c.auth) results c.ip c.rtype env.clock.persisted t).hostnames
          ≡ (persist_updates (scope auth) results c.ip c.rtype env.clock.persisted u).hostnames)
    → Answers
        (AreAnswers env.net env.registry env.config.dns_resolvers
          (publish c.ip (some c.rtype))
          plans
          before)
        r
    → IsPublished env c t before
        (update_done env auth client_ip c.ip c.rtype s u r)
        (manual_done env c plans s t r)
unfolding manual_done update_done
manual_done-IsPublished env c auth client_ip plans s t u before (raise, trace) e k h = elim h [ ]
manual_done-IsPublished env c auth client_ip [] s t u before (ok results, trace) e k h = absurd (
    cc (
      ap (map (λ (plan : HostnamePlan). plan.requested)) e,
      (load_plans-IsLoaded env.vault t c.auth (c.hostname.name ∷ [])).1,
    ))
manual_done-IsPublished env c auth client_ip (plan ∷ other ∷ plans) s t u before (ok results, trace)
      e k h =
    absurd (
      cc (
        ap (map (λ (plan : HostnamePlan). plan.requested)) e,
        (load_plans-IsLoaded env.vault t c.auth (c.hostname.name ∷ [])).1,
      ))
manual_done-IsPublished env c auth client_ip (plan ∷ []) s t u before (ok [], trace) e k h =
    elim h [ ]
manual_done-IsPublished env c auth client_ip (plan ∷ []) s t u before
      (ok (result ∷ other ∷ results), trace) e k (answered a rest) =
    elim rest [ ]
manual_done-IsPublished env c auth client_ip (plan ∷ []) s t u before (ok (result ∷ []), trace) e k
      (answered a answered_all) =
    let results = result ∷ [] in
    let mine = persist_updates (scope c.auth) results c.ip c.rtype env.clock.persisted t in
    let theirs = persist_updates (scope auth) results c.ip c.rtype env.clock.persisted u in
    let same =
      commit_hostnames env.commits s
        (record_hostname_events env.clock.logged c.auth EventType.manual_update none (some c.ip)
          results mine)
        (record_hostname_events env.clock.logged auth EventType.update client_ip (some c.ip) results
          theirs)
        (record_hostname_events_hostnames env c.auth EventType.manual_update none (some c.ip)
            results mine
          ∙ k results
          ∙ sym (
              record_hostname_events_hostnames env auth EventType.update client_ip (some c.ip)
                results theirs)) in
    record {
      plan = plan;
      loaded = e;
      result = result;
      answer = a;
      reply = manual_out env c (plan ∷ []) result;
      out = refl;
      aggregated = refl;
      attempts = attempts_of-IsAnswer a;
      bindings = attempts_of-AreFirst plan.backends result.attempts;
      calls = refl;
      current = same.0;
      committed = same.1;
    }

-- A manual update whose checks pass, which the device's rate limit admits, and none of whose backends raises,
-- is answered with the aggregate of what the backends of that one name answered, and with the
-- status of each of these backends, in their order. When the device belongs to the owner of the zone and its own request to update this name to this
-- address is admitted from the same session, the two make the same calls and leave the same host names, in
-- the session and in the database.
pub manual_update-IsPublished :
    (env : Env) (caller : DdnsScope) (id : ℕ) (body_ip : Text) (s : Session) (trace : Trace)
    (c : Checked) (t : Tables) (request : Request) (auth : DeviceAuth) (u : Tables)
    → check_request caller id body_ip s.current ≡ replied c
    → check_rate_limit c.auth env.config.rate_limit_per_minute env.clock.charged s.current
      ≡ (true, t)
    → All
        (AllAnswer env.net env.registry env.config.dns_resolvers (publish c.ip (some c.rtype)))
        (load_plans env.vault t c.auth (c.hostname.name ∷ []))
    → admit env request EventType.update (client_address request) s.current ≡ (admitted auth, u)
    → update_params request (client_address request)
      ≡ update_asked c.ip c.rtype (c.hostname.name ∷ [])
    → c.auth.device.id ≡ auth.device.id
    → c.auth.user_id ≡ auth.user_id
    → IsPublished env c t trace
        (update env request s trace)
        (manual_update env true caller id body_ip s trace)
unfolding manual_update manual_charged update
manual_update-IsPublished env caller id body_ip s trace c t request auth u checked charged live a p
      d o =
    let names = c.hostname.name ∷ [] in
    let plans = load_plans env.vault t c.auth names in
    let mine : apart_from_callers t ≡ apart_from_callers s.current =
      ap (λ (r : Bool × Tables). apart_from_callers r.1) (sym charged)
      ∙ check_rate_limit_apart c.auth env.config.rate_limit_per_minute env.clock.charged
          s.current in
    let theirs : apart_from_callers u ≡ apart_from_callers s.current =
      ap (λ (r : Admission × Tables). apart_from_callers r.1) (sym a)
      ∙ admit-apart_from_callers env request EventType.update (client_address request) s.current in
    let same = mine ∙ sym theirs in
    let as_loaded : load_plans env.vault u auth names ≡ plans =
      sym (load_plans-same c.auth auth t u d o same env.vault names) in
    rw (checked, charged, a, p, as_loaded)
      (manual_done-IsPublished env c auth (client_address request) plans s t u trace
        (run_dns_phase env.net env.registry plans (publish c.ip (some c.rtype))
          env.config.dns_resolvers trace)
        refl
        (λ results.
          persist_updates-same c.auth auth t u d o same results c.ip c.rtype env.clock.persisted)
        (run_dns_phase-Answers env.net env.registry plans (publish c.ip (some c.rtype))
          env.config.dns_resolvers trace live))
