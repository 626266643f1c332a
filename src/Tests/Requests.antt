-- ===== src/Tests/Requests.antt =====
-- The endpoints on the small installation.
use atrium_ddns.Nic.Handlers.Kept.{HostnamesKept, delete-hostnames}
use atrium_ddns.Nic.Params.{delete_params, delete_asked}
use atrium_ddns.Nic.Handlers.Answers.{IsDeleted, delete-answers}
use atrium_ddns.Prelude.{subst}
use mathlib.Core.Option.{some_inj}
use atrium_ddns.Nic.Dns.{run_backend, withdraw}
use atrium_ddns.Nic.Dns.Backends.{run_backend-Answers, OpAnswers}
use atrium_ddns.Provider.Account.{seed}
use atrium_ddns.Nic.Admit.Effects.{with_commit}
use atrium_ddns.Nic.Admit.{refusal_entry, touch_device, admit, admitted, refused}
use atrium_ddns.Nic.Handlers.Answers.{update-answers, AnswersSo, IsAnswered}
use atrium_ddns.Nic.Handlers.Atomic.{update-commit, seen_outside}
use atrium_ddns.Nic.Handlers.Rollback.{update-IsAtomic, IsAtomic}
use atrium_ddns.Auth.Device.{DeviceAuth, authenticate_device, absent}
use atrium_ddns.Nic.Dns.Phase.{run_dns_phase-Answers, AreAnswers, AllAnswer}
use atrium_ddns.Prelude.{All, ◌≡◌, refl, true, false, none, some, [], ◌∷◌, map}
use atrium_ddns.Nic.Load.Ownership.{load_plans-IsLoaded, IsLoaded}
use atrium_ddns.Status.{EventType, wire, badauth}
use atrium_ddns.Tests.World.{
  home, env, request, session, tables, stranger, auth, vault, registry, net, clock,
}
use atrium_ddns.Nic.Handlers.{delete, update_done, refuse, update, plain}
use atrium_ddns.Nic.Params.{update_params, update_asked}
use atrium_ddns.Store.{add_rate_event, Tables}
use atrium_ddns.Nic.Dns.{run_plan, run_dns_phase, run_backends, run_backend, aggregate, publish}
use atrium_ddns.Provider.Network.Outcomes.{Answers}
use atrium_ddns.Text.{
  strip, starts_with, split_on, split_last, rfind, partition, lower_char, lower, join, is_space,
  ends_with, decimal, codes,
}
use atrium_ddns.Zone.{zone_contains}
use atrium_ddns.Hostname.{
  without_final_dot, valid_element, split_hostnames, label_run, label_matches, isvalidhostname,
  is_letter, is_label_char,
}
use atrium_ddns.Auth.Password.{verify_password}
use atrium_ddns.Auth.Utf8.{utf8_length, utf8_decode}
use atrium_ddns.Nic.Load.{
  unresolved_plan, resolved_plan, requested_rows, locked_owners, load_plans, coerce_ttl, by_name,
  backend_plan,
}
use atrium_ddns.Nic.Persist.{settle, persist_updates, persist_result}
use atrium_ddns.Scope.{select_hostnames, reaches_all_tenants, predicate, get_hostname, for_user_id}
use atrium_ddns.Provider.Account.{seeded, seed}
use atrium_ddns.Store.Selection.{resolve_ttl, resolve_backends}
use atrium_ddns.Nic.Events.{record_hostname_events, record_event, commit_after_dns, by_refusal}
use atrium_ddns.Auth.Header.{parse_basic_auth, client_address}
use atrium_ddns.Address.{normalise_address, getiptype, a}
use atrium_ddns.Provider.Zones.{hostnameperzone, domaininhostname}
use atrium_ddns.Provider.Registry.{get_provider}
use atrium_ddns.Provider.Adapter.{construct}
use atrium_ddns.Auth.RateLimit.{check_rate_limit}
use atrium_ddns.Auth.Base64.{b64decode}
use atrium_ddns.Provider.Network.{ok}
use atrium_ddns.Tests.Plans.{caller, names, home_backend, plans}
use atrium_ddns.Tests.Results.{stub-OpAnswers}

-- The host names asked for are both answered, in the order asked.
answered :
    seen_outside (update env request session [])
    ≡ (ok (plain (codes "good 192.0.2.7\nnohost 192.0.2.7")), [])
unfolding update admit client_address normalise_address parse_basic_auth b64decode utf8_decode strip
    lower split_last partition authenticate_device verify_password utf8_length touch_device
    check_rate_limit for_user_id predicate reaches_all_tenants update_params split_hostnames
    isvalidhostname valid_element label_matches label_run is_label_char without_final_dot split_on
    getiptype refuse update_done load_plans requested_rows select_hostnames by_name locked_owners
    unresolved_plan resolved_plan backend_plan resolve_backends resolve_ttl coerce_ttl run_dns_phase
    run_plan run_backends run_backend get_provider construct seed seeded aggregate record_event
    record_hostname_events commit_after_dns persist_updates persist_result settle get_hostname wire
    join hostnameperzone domaininhostname zone_contains rfind starts_with ends_with lower_char
    is_space decimal is_letter atrium_ddns.Auth.Base64.value
answered = refl

-- What admission makes of the request.

abbrev touched : DeviceAuth × Tables
touched = touch_device 100 request (some caller) auth tables

abbrev charged : Tables
charged = add_rate_event (record { device_id = 1; created_at = 101 }) touched.1

caller_known : client_address request ≡ some caller
unfolding client_address normalise_address strip split_last
caller_known = refl

request_admitted :
    admit env request EventType.update (some caller) tables ≡ (admitted touched.0, charged)
unfolding admit client_address normalise_address parse_basic_auth b64decode utf8_decode strip lower
    split_last partition authenticate_device verify_password utf8_length touch_device
    check_rate_limit for_user_id predicate reaches_all_tenants lower_char is_space
    atrium_ddns.Auth.Base64.value split_on
request_admitted = refl

params_passed : update_params request (some caller) ≡ update_asked caller a names
unfolding update_params normalise_address split_hostnames isvalidhostname valid_element
    label_matches label_run is_label_char is_letter without_final_dot split_on getiptype lower
params_passed = refl

-- The tables after a request without credentials.
abbrev turned_away : EventType → Tables
turned_away event_type =
    record_event clock.logged
      (by_refusal (record { reason = absent; device = none; user_id = none; user_email = none }))
      (refusal_entry EventType.auth badauth (some caller) none none) tables

plans_here : load_plans vault charged touched.0 names ≡ plans
unfolding load_plans for_user_id predicate reaches_all_tenants requested_rows select_hostnames
    by_name locked_owners unresolved_plan resolved_plan backend_plan resolve_backends resolve_ttl
    coerce_ttl lower lower_char touch_device
plans_here = refl

backends_answer : All (AllAnswer net registry [] (publish caller (some a))) plans
unfolding run_backend get_provider construct seed seeded hostnameperzone domaininhostname
    zone_contains rfind starts_with lower lower_char
backends_answer = (((λ t. tt), tt), (tt, tt))

update-answers_example :
    AnswersSo
      (IsAnswered env touched.0 (client_address request) caller a names session charged [])
      (update env request session [])
update-answers_example =
    update-answers env request session [] touched.0 charged caller a names
      (rw caller_known request_admitted) (rw caller_known params_passed)
      (rw plans_here backends_answer)

stranger-update :
    admit env stranger EventType.update (client_address stranger) tables
    ≡ (refused badauth, turned_away EventType.update)
unfolding admit client_address normalise_address parse_basic_auth b64decode utf8_decode strip lower
    split_last partition authenticate_device verify_password utf8_length touch_device
    check_rate_limit for_user_id predicate reaches_all_tenants lower_char is_space
    atrium_ddns.Auth.Base64.value split_on
stranger-update = refl

stranger-delete :
    admit env stranger EventType.delete (client_address stranger) tables
    ≡ (refused badauth, turned_away EventType.delete)
unfolding admit client_address normalise_address parse_basic_auth b64decode utf8_decode strip lower
    split_last partition authenticate_device verify_password utf8_length touch_device
    check_rate_limit for_user_id predicate reaches_all_tenants lower_char is_space
    atrium_ddns.Auth.Base64.value split_on
stranger-delete = refl

delete-hostnames_example : HostnamesKept (home ∷ []) (delete env request session [])
delete-hostnames_example = delete-hostnames env request tables []

update-commit_example :
    seen_outside (update (with_commit false env) request session [])
    ≡ seen_outside (update env request session [])
update-commit_example = update-commit false env request session []

update-IsAtomic_example : IsAtomic session true (update env request session [])
update-IsAtomic_example = update-IsAtomic env request session []

load_plans-IsLoaded_example :
    All
      (IsLoaded vault tables auth (locked_owners vault tables (requested_rows tables auth names)))
      (load_plans vault tables auth names)
    × (map (λ plan. plan.requested) (load_plans vault tables auth names) ≡ names)
load_plans-IsLoaded_example = load_plans-IsLoaded vault tables auth names

run_dns_phase-Answers_example :
    Answers
      (AreAnswers net registry [] (publish caller (some a)) plans [])
      (run_dns_phase net registry plans (publish caller (some a)) [] [])
run_dns_phase-Answers_example =
    run_dns_phase-Answers net registry plans (publish caller (some a)) [] [] backends_answer

request_admitted_delete :
    admit env request EventType.delete (some caller) tables ≡ (admitted touched.0, charged)
unfolding admit client_address normalise_address parse_basic_auth b64decode utf8_decode strip lower
    split_last partition authenticate_device verify_password utf8_length touch_device
    check_rate_limit for_user_id predicate reaches_all_tenants lower_char is_space
    atrium_ddns.Auth.Base64.value split_on
request_admitted_delete = refl

delete_params_passed : delete_params request ≡ delete_asked none none names
unfolding delete_params split_hostnames isvalidhostname valid_element label_matches label_run
    is_label_char is_letter without_final_dot split_on
delete_params_passed = refl

backends_answer_delete : All (AllAnswer net registry [] (withdraw none)) plans
backends_answer_delete = (
  (
    (λ t.
        run_backend-Answers net registry [] (withdraw none) (codes "h.x.org") home_backend t
          (λ adapter e. subst (OpAnswers net (withdraw none)) (some_inj.0 e) stub-OpAnswers)),
    tt,
  ),
  (tt, tt),
)

delete-answers_example :
    AnswersSo
      (IsDeleted env touched.0 (client_address request) none none names session charged [])
      (delete env request session [])
delete-answers_example =
    delete-answers env request session [] touched.0 charged none none names
      (rw caller_known request_admitted_delete) delete_params_passed
      (rw plans_here backends_answer_delete)
