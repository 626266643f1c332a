-- ===== src/Provider/Registry.antt =====
-- The registry of adapters (backend/src/atrium_ddns/providers/__init__.py).
pub mod Laws
use atrium_ddns.Prelude.{
  ℕ, Bool, false, not, ◌||◌, Option, none, some, List, [], ◌∷◌, if◌then◌else◌,
}
use atrium_ddns.Text.{Text, text_eq, is_empty}
use atrium_ddns.Dict.{Dict, get, put, remove}
use atrium_ddns.Provider.Account.{Account, Provider}
use atrium_ddns.Provider.Network.{Net, Exec, pure, attempt}
use atrium_ddns.Provider.Adapter.{Adapter, construct}
use atrium_ddns.Provider.Route53.{route53}
use atrium_ddns.Provider.Hetzner.{hetzner}
use atrium_ddns.Provider.NsUpdate.{nsupdate}

abbrev pub Registry : Type 0
Registry = Dict Adapter

-- `service_names`: canonical first.
abbrev pub service_names : Adapter → List Text
service_names adapter = adapter.service ∷ adapter.aliases

abbrev same_class : Adapter → Adapter → Bool
same_class x y = text_eq x.class_name y.class_name

-- A name that another class holds.
abbrev pub held_by_other : Adapter → Option Adapter → Bool
held_by_other adapter none = false
held_by_other adapter (some existing) = not (same_class existing adapter)

collides : Registry → Adapter → List Text → Bool
collides registry adapter [] = false
collides registry adapter (name ∷ names) =
    held_by_other adapter (get registry name) || collides registry adapter names

claim : Registry → Adapter → List Text → Registry
claim registry adapter [] = registry
claim registry adapter (name ∷ names) = claim (put registry name adapter) adapter names

-- `register`: all names are checked before any is claimed; `none` is the `ValueError`.
unfoldable pub register : Registry → Adapter → Option Registry
unfolding collides claim
register registry adapter =
    if is_empty adapter.service || collides registry adapter (service_names adapter)
    then none
    else some (claim registry adapter (service_names adapter))

release : Registry → Adapter → List Text → Registry
release registry adapter [] = registry
release registry adapter (name ∷ names) =
    release
      (elim (get registry name) [
        | none ↦ registry
        | some existing ↦ if same_class existing adapter then remove registry name else registry
      ])
      adapter names

unfoldable pub unregister : Registry → Adapter → Registry
unfolding release
unregister registry adapter = release registry adapter (service_names adapter)

-- `provider_class`: case-sensitive, not stripped.
abbrev pub provider_class : Registry → Text → Option Adapter
provider_class registry service = get registry service

abbrev pub construct_class : Net → Account → List Text → Option Adapter → Exec (Option Provider)
construct_class net account resolvers none = pure none
construct_class net account resolvers (some adapter) =
    attempt (construct net adapter account resolvers)

-- `get_provider`: `None` for an unknown service and for a construction that failed.
unfoldable pub get_provider : Net → Registry → Account → List Text → Exec (Option Provider)
get_provider net registry account resolvers =
    construct_class net account resolvers (provider_class registry account.service)

register_each : Registry → List Adapter → Option Registry
register_each registry [] = some registry
register_each registry (adapter ∷ adapters) = elim (register registry adapter) [
  | none ↦ none
  | some next ↦ register_each next adapters
]

-- The loop over `_PROVIDERS` at import. Route 53 may list its zones over so many pages.
unfoldable pub shipped : ℕ → Option Registry
unfolding register_each register route53 hetzner nsupdate
shipped pages = register_each [] (route53 pages ∷ hetzner ∷ nsupdate ∷ [])
