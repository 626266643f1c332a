-- ===== src/Tests/Publishing.antt =====
-- Publishing by hand on the small installation.
use atrium_ddns.Nic.Admit.{touch_device, admit, admitted}
use atrium_ddns.Auth.Header.{Request, client_address, parse_basic_auth}
use atrium_ddns.Auth.Device.{DeviceAuth, authenticate_device}
use atrium_ddns.Auth.Password.{verify_password}
use atrium_ddns.Auth.Utf8.{utf8_length, utf8_decode}
use atrium_ddns.Auth.Base64.{b64decode}
use atrium_ddns.Status.{EventType}
use atrium_ddns.Text.{strip, split_last, partition, is_space, split_on}
use atrium_ddns.Nic.Params.{update_params}
use atrium_ddns.Hostname.{
  split_hostnames, isvalidhostname, valid_element, label_matches, label_run, is_label_char,
  is_letter, without_final_dot,
}
use atrium_ddns.Nic.Handlers.{update}
use atrium_ddns.Tests.World.{request, auth}
use atrium_ddns.Prelude.{◌≡◌, refl, true, none, some, [], ◌∷◌, Option, All, ◌++◌}
use atrium_ddns.Prelude.Int.{pos}
use atrium_ddns.Text.{Text, codes}
use atrium_ddns.Address.{a, normalise_address, getiptype}
use atrium_ddns.Store.{Tables, Backend, add_rate_event, change_hostname}
use atrium_ddns.Scope.{for_user_id, predicate, select_hostnames, reaches_all_tenants}
use atrium_ddns.Auth.RateLimit.{check_rate_limit}
use atrium_ddns.Nic.Dns.{publish, run_backend, HostnamePlan}
use atrium_ddns.Nic.Dns.Phase.{AllAnswer}
use atrium_ddns.Nic.Load.{load_plans, backend_plan}
use atrium_ddns.Nic.Params.{update_asked}
use atrium_ddns.Nic.Load.{
  requested_rows, by_name, locked_owners, unresolved_plan, resolved_plan, coerce_ttl,
}
use atrium_ddns.Store.Selection.{resolve_backends, resolve_ttl}
use atrium_ddns.Text.{lower, lower_char, rfind, starts_with}
use atrium_ddns.Provider.Account.{seed, seeded}
use atrium_ddns.Provider.Registry.{get_provider}
use atrium_ddns.Provider.Adapter.{construct}
use atrium_ddns.Provider.Zones.{hostnameperzone, domaininhostname}
use atrium_ddns.Zone.{zone_contains}
use atrium_ddns.Tests.Plans.{home_plan}
use atrium_ddns.Api.Replies.{replied}
use atrium_ddns.Api.Adopt.{auth_for}
use atrium_ddns.Api.Adopt.Once.{with_adopted}
use atrium_ddns.Api.Publishing.{
  HostnamePublishingIn, set_hostname_publishing, publishing_out, effective_ttl,
}
use atrium_ddns.Api.Publishing.Chosen.{IsChosen, set_hostname_publishing-IsChosen, with_choice}
use atrium_ddns.Api.Manual.{Checked, check_request, manual_update}
use atrium_ddns.Api.Manual.Answers.{IsPublished, manual_update-IsPublished}
use atrium_ddns.Provider.Account.{num}
use atrium_ddns.Tests.World.{home, zone, box, binding, tables, session, env, vault, registry, net}

-- A binding with a TTL of 0, which the page shows as 60.
abbrev zero_binding : Backend
zero_binding = record binding { config = (codes "ttl", num (pos 0)) ∷ [] }

zero_shown : effective_ttl home zero_binding ≡ pos 60
unfolding effective_ttl
zero_shown = refl

zero_published : (backend_plan vault [] home zone zero_binding).ttl ≡ pos 0
unfolding backend_plan atrium_ddns.Nic.Load.coerce_ttl atrium_ddns.Store.Selection.resolve_ttl
zero_published = refl

-- The one binding is chosen, with a TTL of its own.
abbrev choice : HostnamePublishingIn
choice = record { backend_ids = some (5 ∷ 5 ∷ []); ttl = some (pos 300) }

abbrev chosen_tables : Tables
chosen_tables = with_choice (for_user_id 7) home choice tables

choice-taken :
    set_hostname_publishing (for_user_id 7) 9 choice tables
    ≡ replied
        (publishing_out chosen_tables (record home { ttl = some (pos 300) }) zone, chosen_tables)
unfolding set_hostname_publishing atrium_ddns.Api.Replies.◌>>◌ atrium_ddns.Api.Replies.◌>>=◌
    atrium_ddns.Api.Replies.refuse_if atrium_ddns.Api.Replies.required for_user_id
choice-taken = refl

set_hostname_publishing-IsChosen_example :
    IsChosen
      (for_user_id 7)
      9
      choice
      tables
      (publishing_out chosen_tables (record home { ttl = some (pos 300) }) zone)
      chosen_tables
set_hostname_publishing-IsChosen_example =
    set_hostname_publishing-IsChosen (for_user_id 7) 9 choice tables choice-taken

abbrev repr : Option Text → Text
repr none = codes "None"
repr (some s) = codes "'" ++ s ++ codes "'"

abbrev adopted_tables : Tables
adopted_tables = with_adopted repr (λ n. 103) (for_user_id 7) home zone tables

abbrev typed : Text
typed = codes "192.0.2.7"

abbrev checked : Checked
checked = record {
  hostname = home;
  domain = zone;
  auth = auth_for tables zone box;
  ip = typed;
  rtype = a;
}

request-checked : check_request (for_user_id 7) 9 typed tables ≡ replied checked
unfolding check_request atrium_ddns.Api.Replies.◌>>◌ atrium_ddns.Api.Replies.◌>>=◌
    atrium_ddns.Api.Replies.refuse_if atrium_ddns.Api.Replies.required for_user_id
request-checked = refl

abbrev charged_tables : Tables
charged_tables = add_rate_event (record { device_id = 1; created_at = 101 }) tables

request-charged :
    check_rate_limit checked.auth env.config.rate_limit_per_minute env.clock.charged tables
    ≡ (true, charged_tables)
unfolding check_rate_limit
request-charged = refl

abbrev plan : HostnamePlan
plan = record home_plan { requested = codes "h.x.org" }

plan_here : load_plans vault charged_tables checked.auth (home.name ∷ []) ≡ plan ∷ []
unfolding load_plans for_user_id predicate reaches_all_tenants requested_rows select_hostnames
    by_name locked_owners unresolved_plan resolved_plan backend_plan resolve_backends resolve_ttl
    coerce_ttl lower lower_char
plan_here = refl

plan_answers : All (AllAnswer net registry [] (publish typed (some a))) (plan ∷ [])
unfolding run_backend get_provider construct seed seeded hostnameperzone domaininhostname
    zone_contains rfind starts_with lower lower_char
plan_answers = (((λ t. tt), tt), tt)

-- The device's own request for the same name.
abbrev own_request : Request
own_request = record request { hostname = some (codes "h.x.org") }

abbrev own_admission : DeviceAuth × Tables
own_admission = touch_device 100 own_request (some typed) auth tables

abbrev own_tables : Tables
own_tables = add_rate_event (record { device_id = 1; created_at = 101 }) own_admission.1

own_address : client_address own_request ≡ some typed
unfolding client_address normalise_address strip split_last
own_address = refl

own_admitted :
    admit env own_request EventType.update (some typed) tables
    ≡ (admitted own_admission.0, own_tables)
unfolding admit client_address normalise_address parse_basic_auth b64decode utf8_decode strip lower
    split_last partition authenticate_device verify_password utf8_length touch_device
    check_rate_limit for_user_id predicate reaches_all_tenants lower_char is_space
    atrium_ddns.Auth.Base64.value split_on
own_admitted = refl

own_params : update_params own_request (some typed) ≡ update_asked typed a (home.name ∷ [])
unfolding update_params normalise_address split_hostnames isvalidhostname valid_element
    label_matches label_run is_label_char is_letter without_final_dot split_on getiptype lower
own_params = refl

own_device : 1 ≡ own_admission.0.device.id
unfolding touch_device
own_device = refl

own_user : 7 ≡ own_admission.0.user_id
unfolding touch_device
own_user = refl

manual_update-IsPublished_example :
    IsPublished env checked charged_tables []
      (update env own_request session [])
      (manual_update env true (for_user_id 7) 9 typed session [])
manual_update-IsPublished_example =
    manual_update-IsPublished env (for_user_id 7) 9 typed session [] checked charged_tables
      own_request own_admission.0 own_tables request-checked request-charged
      (rw plan_here plan_answers) (rw own_address own_admitted) (rw own_address own_params)
      own_device own_user
