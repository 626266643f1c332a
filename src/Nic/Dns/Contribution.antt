-- ===== src/Nic/Dns/Contribution.antt =====
-- What `_run_backend` answers for one name, in the order of its tests.
use atrium_ddns.Prelude.{
  ◌≡◌, ◌⊎◌, refl, inl, inr, true, false, Option, none, some, List, [], ◌∷◌, Bool-cases, or_default,
}
use atrium_ddns.Text.{Text}
use atrium_ddns.Dict.{get}
use atrium_ddns.Address.{RecordType, a}
use atrium_ddns.Status.{Status, nohost, dnserr, unknown_service}
use atrium_ddns.Provider.Account.{Provider}
use atrium_ddns.Provider.Zones.{hostnameperzone}
use atrium_ddns.Provider.Network.{Net, Trace, Outcome, ok, raise, pure}
use atrium_ddns.Provider.Network.Outcomes.{Ends, Ends-bind, Ends-mono}
use atrium_ddns.Provider.Adapter.{Adapter, Groups, Results}
use atrium_ddns.Provider.Registry.{Registry, provider_class, get_provider}
use atrium_ddns.Nic.Dns.{
  BackendPlan, has_credentials, Op, publish, withdraw, operate, on_zones, on_provider, run_backend,
  account_of,
}

-- What one backend contributes for a name, from the calls made before it to those made after it.
pub data IsContribution (net : Net) (registry : Registry) (resolvers : List Text) (hostname : Text)
    (backend : BackendPlan) : Op → Trace → Status → Trace → Type 0 where
  -- No stored credentials: 911, and nothing asked.
  no_credentials :
      {op : Op} {t : Trace}
      → has_credentials backend ≡ false
      → IsContribution net registry resolvers hostname backend op t unknown_service t
  -- A service that no adapter has, or whose adapter cannot be made: 911.
  no_provider :
      {op : Op} {t t' : Trace}
      → has_credentials backend ≡ true
      → get_provider net registry (account_of backend) resolvers t ≡ (ok none, t')
      → IsContribution net registry resolvers hostname backend op t unknown_service t'
  -- A name outside the zones of the provider: `nohost`, and nothing is written.
  outside :
      {op : Op} {provider : Provider} {t t' : Trace}
      → has_credentials backend ≡ true
      → get_provider net registry (account_of backend) resolvers t ≡ (ok (some provider), t')
      → (hostnameperzone provider (hostname ∷ []) ≡ none)
        ⊎ (hostnameperzone provider (hostname ∷ []) ≡ some [])
      → IsContribution net registry resolvers hostname backend op t nohost t'
  -- What the adapter answers for the name, and `dnserr` when it says nothing of it.
  written :
      {adapter : Adapter} {provider : Provider} {grouped : Groups} {results : Results} {ip : Text}
      {rtype : Option RecordType} {t t' t'' : Trace}
      → has_credentials backend ≡ true
      → provider_class registry backend.backend_type ≡ some adapter
      → get_provider net registry (account_of backend) resolvers t ≡ (ok (some provider), t')
      → hostnameperzone provider (hostname ∷ []) ≡ some grouped
      → adapter.createrecords net provider ip grouped (or_default rtype a) backend.ttl t'
        ≡ (ok results, t'')
      → IsContribution net registry resolvers hostname backend
          (publish ip rtype)
          t
          (or_default (get results hostname) dnserr)
          t''
  removed :
      {adapter : Adapter} {provider : Provider} {grouped : Groups} {results : Results}
      {rtype : Option RecordType} {t t' t'' : Trace}
      → has_credentials backend ≡ true
      → provider_class registry backend.backend_type ≡ some adapter
      → get_provider net registry (account_of backend) resolvers t ≡ (ok (some provider), t')
      → hostnameperzone provider (hostname ∷ []) ≡ some grouped
      → adapter.deleterecords net provider grouped rtype t' ≡ (ok results, t'')
      → IsContribution net registry resolvers hostname backend
          (withdraw rtype)
          t
          (or_default (get results hostname) dnserr)
          t''

Ends-run : {A : Type 0} (r : Outcome A × Trace) → Ends (λ x t. r ≡ (ok x, t)) r
Ends-run (ok x, t) = refl
Ends-run (raise, t) = tt

module _ (net : Net) (registry : Registry) (resolvers : List Text) (hostname : Text)
    (backend : BackendPlan) (t : Trace) (filled : has_credentials backend ≡ true) where
  operate-Ends :
      (adapter : Adapter) (provider : Provider) (op : Op) (grouped : Groups) (t' : Trace)
      → provider_class registry backend.backend_type ≡ some adapter
      → get_provider net registry (account_of backend) resolvers t ≡ (ok (some provider), t')
      → hostnameperzone provider (hostname ∷ []) ≡ some grouped
      → Ends
          (λ results t''.
            IsContribution net registry resolvers hostname backend op t
              (or_default (get results hostname) dnserr)
              t'')
          (operate net adapter provider op grouped backend.ttl t')
  operate-Ends adapter provider (publish ip rtype) grouped t' c p z =
      Ends-mono _ _
        (adapter.createrecords net provider ip grouped (or_default rtype a) backend.ttl t')
        (Ends-run
          (adapter.createrecords net provider ip grouped (or_default rtype a) backend.ttl t'))
        (λ results t'' r. written filled c p z r)
  operate-Ends adapter provider (withdraw rtype) grouped t' c p z =
      Ends-mono _ _ (adapter.deleterecords net provider grouped rtype t')
        (Ends-run (adapter.deleterecords net provider grouped rtype t'))
        (λ results t'' r. removed filled c p z r)

  on_zones-Ends :
      (adapter : Adapter) (provider : Provider) (op : Op) (o : Option Groups) (t' : Trace)
      → provider_class registry backend.backend_type ≡ some adapter
      → get_provider net registry (account_of backend) resolvers t ≡ (ok (some provider), t')
      → hostnameperzone provider (hostname ∷ []) ≡ o
      → Ends
          (IsContribution net registry resolvers hostname backend op t)
          (on_zones net adapter provider op hostname backend.ttl o t')
  on_zones-Ends adapter provider op none t' c p z = outside filled p (inl z)
  on_zones-Ends adapter provider op (some []) t' c p z = outside filled p (inr z)
  on_zones-Ends adapter provider op (some (group ∷ groups)) t' c p z =
      Ends-bind
        (λ results t''.
          IsContribution net registry resolvers hostname backend op t
            (or_default (get results hostname) dnserr) t'')
        (IsContribution net registry resolvers hostname backend op t)
        (operate net adapter provider op (group ∷ groups) backend.ttl)
        (λ result. pure (or_default (get result hostname) dnserr)) t'
        (operate-Ends adapter provider op (group ∷ groups) t' c p z) (λ results t'' k. k)

  -- No provider is made of a service that no adapter has.
  unknown_unmade :
      (provider : Provider) (t' : Trace)
      → provider_class registry backend.backend_type ≡ none
      → ¬ (get_provider net registry (account_of backend) resolvers t ≡ (ok (some provider), t'))
  unfolding get_provider
  unknown_unmade provider t' c p = cc (rw c at p)

  on_provider-Ends :
      (o : Option Adapter) (op : Op) (made : Option Provider) (t' : Trace)
      → provider_class registry backend.backend_type ≡ o
      → get_provider net registry (account_of backend) resolvers t ≡ (ok made, t')
      → Ends
          (IsContribution net registry resolvers hostname backend op t)
          (on_provider net o op hostname backend.ttl made t')
  on_provider-Ends (some adapter) op (some provider) t' c p =
      on_zones-Ends adapter provider op (hostnameperzone provider (hostname ∷ [])) t' c p refl
  on_provider-Ends (some adapter) op none t' c p = no_provider filled p
  on_provider-Ends none op none t' c p = no_provider filled p
  on_provider-Ends none op (some provider) t' c p = absurd (unknown_unmade provider t' c p)

-- What `run_backend` answers is the contribution of that backend.
pub run_backend-IsContribution :
    (net : Net) (registry : Registry) (resolvers : List Text) (op : Op) (hostname : Text)
    (backend : BackendPlan) (t : Trace)
    → Ends
        (IsContribution net registry resolvers hostname backend op t)
        (run_backend net registry resolvers op hostname backend t)
unfolding run_backend
run_backend-IsContribution net registry resolvers op hostname backend t =
    elim (Bool-cases (has_credentials backend)) [
      | inr e ↦ rw e (no_credentials e)
      | inl e ↦ rw e (
          let make = get_provider net registry (account_of backend) resolvers in
          let class = provider_class registry backend.backend_type in
          Ends-bind (λ made t'. make t ≡ (ok made, t'))
            (IsContribution net registry resolvers hostname backend op t) make
            (on_provider net class op hostname backend.ttl) t (Ends-run (make t))
            (λ made t' p.
              on_provider-Ends net registry resolvers hostname backend t e class op made t' refl p))
    ]
