-- ===== src/Nic/Dns.antt =====
-- The plans of a request, `aggregate`, `_run_backend` and `run_dns_phase`.
pub mod Aggregate
pub mod Contribution
pub mod Phase
pub mod Backends
use atrium_ddns.Prelude.{
  ℕ, Bool, true, false, not, Option, none, some, List, [], ◌∷◌, any, all, is_some, or_default,
  if◌then◌else◌,
}
use atrium_ddns.Prelude.Int.{ℤ}
use atrium_ddns.Text.{Text, decimal}
use atrium_ddns.Dict.{Dict, get}
use atrium_ddns.Address.{RecordType, a}
use atrium_ddns.Status.{
  Status, good, nochg, dnserr, nohost, unknown_service, is_good, is_nochg, is_settled,
}
use atrium_ddns.Provider.Account.{Json, Account, Provider}
use atrium_ddns.Provider.Zones.{hostnameperzone}
use atrium_ddns.Provider.Network.{Net, Exec, pure, throw, ◌>>=◌}
use atrium_ddns.Provider.Adapter.{Adapter, Groups, Results}
use atrium_ddns.Provider.Registry.{Registry, provider_class, get_provider}

pub record BackendPlan : Type 0 where
  pub backend_id : ℕ
  pub backend_type : Text
  pub domains : List Text
  pub credentials : Option (Dict Json)
  pub config : Dict Json
  pub ttl : ℤ

-- `bool(self.credentials)`: none and an empty mapping are alike.
abbrev filled : Option (Dict Json) → Bool
filled (some (entry ∷ entries)) = true
filled _ = false

abbrev pub has_credentials : BackendPlan → Bool
has_credentials backend = filled backend.credentials

pub record HostnamePlan : Type 0 where
  pub requested : Text
  pub lookup : Text
  pub hostname_id : Option ℕ
  pub domain_id : Option ℕ
  pub domain_name : Option Text
  pub backends : List BackendPlan

abbrev pub resolved : HostnamePlan → Bool
resolved plan = is_some plan.hostname_id

-- The attempts are backend types with their statuses, in backend order.
pub record HostnameResult : Type 0 where
  pub plan : HostnamePlan
  pub attempts : List (Text × Status)
  pub status : Status

-- The first status that is neither `good` nor `nochg`.
unfoldable pub first_other : List Status → Option Status
first_other [] = none
first_other (status ∷ statuses) =
    let rest = first_other statuses in if is_settled status then rest else some status

-- `none` is the `ValueError` for no statuses, and the `AssertionError` at the end.
unfoldable pub aggregate : List Status → Option Status
unfolding first_other
aggregate [] = none
aggregate (status ∷ statuses) =
    if any is_good (status ∷ statuses)
    then some good
    else if all is_nochg (status ∷ statuses)
    then some nochg
    else first_other (status ∷ statuses)

-- `op` with the `ip` and `rtype` that it needs.
pub data Op : Type 0 where
  publish : Text → Option RecordType → Op
  withdraw : Option RecordType → Op

abbrev pub account_of : BackendPlan → Account
account_of backend = record {
  service = backend.backend_type;
  domains = backend.domains;
  credentials = or_default backend.credentials [];
  config = backend.config;
  id = decimal backend.backend_id;
}

abbrev operate : Net → Adapter → Provider → Op → Groups → ℤ → Exec Results
operate net adapter provider (publish ip rtype) grouped ttl =
    adapter.createrecords net provider ip grouped (or_default rtype a) ttl
operate net adapter provider (withdraw rtype) grouped ttl =
    adapter.deleterecords net provider grouped rtype

-- `hostnameperzone` answers `False` (`none`) or a mapping: neither may be empty.
abbrev on_zones : Net → Adapter → Provider → Op → Text → ℤ → Option Groups → Exec Status
on_zones net adapter provider op hostname ttl (some (group ∷ groups)) = do
  result ← operate net adapter provider op (group ∷ groups) ttl
  pure (or_default (get result hostname) dnserr)
on_zones net adapter provider op hostname ttl _ = pure nohost

-- The operations of the provider made are those of its class.
abbrev on_provider : Net → Option Adapter → Op → Text → ℤ → Option Provider → Exec Status
on_provider net (some adapter) op hostname ttl (some provider) =
    on_zones net adapter provider op hostname ttl (hostnameperzone provider (hostname ∷ []))
on_provider net _ op hostname ttl _ = pure unknown_service

-- `_run_backend`.
unfoldable pub run_backend : Net → Registry → List Text → Op → Text → BackendPlan → Exec Status
run_backend net registry resolvers op hostname backend =
    if not (has_credentials backend) then pure unknown_service else (do
      provider ← get_provider net registry (account_of backend) resolvers
      on_provider net (provider_class registry backend.backend_type) op hostname backend.ttl
          provider)

-- The inner loop of `run_dns_phase`.
unfoldable pub run_backends :
    Net → Registry → List Text → Op → Text → List BackendPlan → Exec (List (Text × Status))
run_backends net registry resolvers op hostname [] = pure []
run_backends net registry resolvers op hostname (backend ∷ backends) = do
  status ← run_backend net registry resolvers op hostname backend
  attempts ← run_backends net registry resolvers op hostname backends
  pure ((backend.backend_type, status) ∷ attempts)

abbrev statuses_of : List (Text × Status) → List Status
statuses_of [] = []
statuses_of ((backend_type, status) ∷ attempts) = status ∷ statuses_of attempts

abbrev finish : HostnamePlan → List (Text × Status) → Option Status → Exec HostnameResult
finish plan attempts none = throw
finish plan attempts (some status) =
    pure (record { plan = plan; attempts = attempts; status = status })

abbrev run_backends_of :
    Net → Registry → List Text → Op → HostnamePlan → List BackendPlan → Exec HostnameResult
run_backends_of net registry resolvers op plan [] =
    pure (record { plan = plan; attempts = []; status = unknown_service })
run_backends_of net registry resolvers op plan (backend ∷ backends) = do
  attempts ← run_backends net registry resolvers op plan.lookup (backend ∷ backends)
  finish plan attempts (aggregate (statuses_of attempts))

-- The body of the outer loop.
unfoldable pub run_plan : Net → Registry → List Text → Op → HostnamePlan → Exec HostnameResult
run_plan net registry resolvers op plan =
    if not (resolved plan)
    then pure (record { plan = plan; attempts = []; status = nohost })
    else run_backends_of net registry resolvers op plan plan.backends

unfoldable pub run_dns_phase :
    Net → Registry → List HostnamePlan → Op → List Text → Exec (List HostnameResult)
run_dns_phase net registry [] op resolvers = pure []
run_dns_phase net registry (plan ∷ plans) op resolvers = do
  result ← run_plan net registry resolvers op plan
  results ← run_dns_phase net registry plans op resolvers
  pure (result ∷ results)
