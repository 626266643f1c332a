-- ===== src/Tests/Results.antt =====
-- Results, backends and rows on the small installation.
use atrium_ddns.Store.{Hostname}
use atrium_ddns.Nic.Dns.{BackendPlan, withdraw, account_of}
use atrium_ddns.Nic.Dns.Backends.{OpAnswers}
use atrium_ddns.Provider.Adapter.Known.{AllKnown}
use atrium_ddns.Provider.NsUpdate.{nsupdate}
use atrium_ddns.Provider.NsUpdate.Deletes.{nsupdate-deleterecords}
use atrium_ddns.Provider.Account.{seed}
use atrium_ddns.Tests.World.{stub, home}
use atrium_ddns.Auth.Device.{scope}
use atrium_ddns.Nic.Events.Rows.{rows, record_hostname_events-rows, IsLogged}
use atrium_ddns.Nic.Persist.Frame.{persist_updates-frame, persist_result-found, IsSettled, IsUpdate}
use atrium_ddns.Prelude.{any, IsIn, All, ◌≡◌, refl, false, none, some, [], ◌∷◌, ◌⊎◌}
use atrium_ddns.Status.{is_good, Status, EventType, dnserr, good, nochg, unknown_service}
use atrium_ddns.Tests.World.{tables, auth, net, clock}
use atrium_ddns.Nic.Dns.Aggregate.{aggregate_lem, IsFirstOther}
use atrium_ddns.Nic.Dns.{aggregate}
use atrium_ddns.Provider.Network.Outcomes.{Answers}
use atrium_ddns.Text.{codes}
use atrium_ddns.Nic.Persist.{persist_updates, persist_result}
use atrium_ddns.Scope.{get_hostname, select_hostnames, for_user_id, predicate, reaches_all_tenants}
use atrium_ddns.Provider.Account.{seed}
use atrium_ddns.Nic.Events.{record_hostname_events}
use atrium_ddns.Address.{a}
use atrium_ddns.Prelude.Int.{pos}
use atrium_ddns.Tests.Plans.{caller, home_result}

aggregate_lem_example :
    (IsIn good (nochg ∷ unknown_service ∷ dnserr ∷ [])
      × (aggregate (nochg ∷ unknown_service ∷ dnserr ∷ []) ≡ some good))
    ⊎ (All (λ s. s ≡ nochg) (nochg ∷ unknown_service ∷ dnserr ∷ [])
        × (aggregate (nochg ∷ unknown_service ∷ dnserr ∷ []) ≡ some nochg))
    ⊎ ((first : Status) × (aggregate (nochg ∷ unknown_service ∷ dnserr ∷ []) ≡ some first)
        × IsFirstOther (nochg ∷ unknown_service ∷ dnserr ∷ []) first
        × (any is_good (nochg ∷ unknown_service ∷ dnserr ∷ []) ≡ false))
aggregate_lem_example = aggregate_lem nochg (unknown_service ∷ dnserr ∷ [])

persist_updates-frame_example :
    IsUpdate a tables (persist_updates (scope auth) (home_result good ∷ []) caller a 102 tables)
persist_updates-frame_example =
    persist_updates-frame (scope auth) (home_result good ∷ []) caller a 102 tables

home_found : get_hostname (scope auth) tables 9 ≡ some home
unfolding get_hostname select_hostnames for_user_id predicate reaches_all_tenants
home_found = refl

persist_result-found_example :
    (h' : Hostname) × (get_hostname
        (scope auth)
        (persist_result (scope auth) caller a 102 (home_result good) tables)
        9
      ≡ some h')
    × IsSettled a caller 102 good home h'
persist_result-found_example =
    persist_result-found (scope auth) caller a 102 (home_result good) tables 9 home refl refl
      home_found

record_hostname_events-rows_example : IsLogged auth (rows (home_result good ∷ [])) tables (
    record_hostname_events clock.logged auth EventType.update
      (some caller)
      (some caller)
      (home_result good ∷ [])
      tables)
record_hostname_events-rows_example =
    record_hostname_events-rows clock.logged auth EventType.update (some caller) (some caller)
      (home_result good ∷ []) tables

abbrev bare : BackendPlan
bare = record {
  backend_id = 6;
  backend_type = codes "stub";
  domains = codes "x.org" ∷ [];
  credentials = none;
  config = [];
  ttl = pos 60;
}

pub stub-OpAnswers : OpAnswers net (withdraw none) stub
stub-OpAnswers p groups ttl t = tt

nsupdate-deleterecords_example :
    Answers
      (λ results _. AllKnown results ((codes "x.org", codes "h.x.org" ∷ []) ∷ []))
      (nsupdate.deleterecords net
        (seed (account_of bare) [])
        ((codes "x.org", codes "h.x.org" ∷ []) ∷ [])
        none
        [])
nsupdate-deleterecords_example =
    nsupdate-deleterecords net (seed (account_of bare) [])
      ((codes "x.org", codes "h.x.org" ∷ []) ∷ []) none []
