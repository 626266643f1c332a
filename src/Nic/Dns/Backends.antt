-- ===== src/Nic/Dns/Backends.antt =====
-- What one backend contributes, and when it ends with an answer.
use atrium_ddns.Prelude.{
  ◌≡◌, ◌⊎◌, inl, inr, refl, false, Option, none, some, List, [], ◌∷◌, Bool-cases, or_default,
}
use atrium_ddns.Prelude.Int.{ℤ}
use atrium_ddns.Text.{Text}
use atrium_ddns.Dict.{get}
use atrium_ddns.Status.{unknown_service}
use atrium_ddns.Provider.Account.{Provider, Account}
use atrium_ddns.Provider.Zones.{hostnameperzone}
use atrium_ddns.Provider.Network.{Net, Trace, ok, Exec, pure, attempt}
use atrium_ddns.Provider.Network.Outcomes.{Answers, Answers-bind}
use atrium_ddns.Provider.Adapter.{Adapter, Groups, construct}
use atrium_ddns.Provider.Registry.{Registry, provider_class, get_provider, construct_class}
use atrium_ddns.Nic.Dns.{
  BackendPlan, has_credentials, Op, operate, on_zones, on_provider, run_backend, account_of, dnserr,
}

-- A backend without credentials, or of a service that no adapter has, contributes 911, and nothing is
-- asked of anybody.
pub run_backend-no_service :
    (net : Net) (registry : Registry) (resolvers : List Text) (op : Op) (hostname : Text)
    (backend : BackendPlan) (t : Trace)
    → (has_credentials backend ≡ false) ⊎ (provider_class registry backend.backend_type ≡ none)
    → run_backend net registry resolvers op hostname backend t ≡ (ok unknown_service, t)
unfolding run_backend get_provider
run_backend-no_service net registry resolvers op hostname backend t (inl h) = rw h refl
run_backend-no_service net registry resolvers op hostname backend t (inr h) =
    elim (Bool-cases (has_credentials backend)) [ inl e ↦ rw (e, h) refl | inr e ↦ rw e refl ]

-- The operation ends with an answer on every provider of the class.
abbrev pub OpAnswers : Net → Op → Adapter → Type 0
OpAnswers net op adapter =
    (p : Provider) (groups : Groups) (ttl : ℤ) (t : Trace)
    → Answers (λ _ _. Unit) (operate net adapter p op groups ttl t)

attempt-Answers : {A : Type 0} (m : Exec A) (t : Trace) → Answers (λ _ _. Unit) (attempt m t)
attempt-Answers m t = tt

construct_class-Answers :
    (net : Net) (account : Account) (resolvers : List Text) (o : Option Adapter) (t : Trace)
    → Answers (λ _ _. Unit) (construct_class net account resolvers o t)
construct_class-Answers net account resolvers none t = tt
construct_class-Answers net account resolvers (some adapter) t =
    attempt-Answers (construct net adapter account resolvers) t

on_zones-Answers :
    (net : Net) (adapter : Adapter) (p : Provider) (op : Op) (hostname : Text) (ttl : ℤ)
    (o : Option Groups) (t : Trace)
    → OpAnswers net op adapter
    → Answers (λ _ _. Unit) (on_zones net adapter p op hostname ttl o t)
on_zones-Answers net adapter p op hostname ttl none t h = tt
on_zones-Answers net adapter p op hostname ttl (some []) t h = tt
on_zones-Answers net adapter p op hostname ttl (some (group ∷ groups)) t h =
    Answers-bind (λ _ _. Unit) (λ _ _. Unit) (operate net adapter p op (group ∷ groups) ttl)
      (λ result. pure (or_default (get result hostname) dnserr)) t (h p (group ∷ groups) ttl t)
      (λ _ _ _. tt)

on_provider-Answers :
    (net : Net) (o : Option Adapter) (op : Op) (hostname : Text) (ttl : ℤ) (made : Option Provider)
    (t : Trace)
    → ((adapter : Adapter) → o ≡ some adapter → OpAnswers net op adapter)
    → Answers (λ _ _. Unit) (on_provider net o op hostname ttl made t)
on_provider-Answers net none op hostname ttl made t h = tt
on_provider-Answers net (some adapter) op hostname ttl none t h = tt
on_provider-Answers net (some adapter) op hostname ttl (some p) t h =
    on_zones-Answers net adapter p op hostname ttl (hostnameperzone p (hostname ∷ [])) t
      (h adapter refl)

-- A backend answers whenever the operation of its service's adapter does: a service that is not known,
-- and a construction or a zone discovery that raises, are answers too.
pub run_backend-Answers :
    (net : Net) (registry : Registry) (resolvers : List Text) (op : Op) (hostname : Text)
    (backend : BackendPlan) (t : Trace)
    → ((adapter : Adapter)
        → provider_class registry backend.backend_type ≡ some adapter
        → OpAnswers net op adapter)
    → Answers (λ _ _. Unit) (run_backend net registry resolvers op hostname backend t)
unfolding run_backend get_provider
run_backend-Answers net registry resolvers op hostname backend t h =
    elim (Bool-cases (has_credentials backend)) [
      | inr e ↦ rw e tt
      | inl e ↦ rw e (
          Answers-bind (λ _ _. Unit) (λ _ _. Unit)
            (construct_class net (account_of backend) resolvers
              (provider_class registry backend.backend_type))
            (on_provider net (provider_class registry backend.backend_type) op hostname backend.ttl)
            t
            (construct_class-Answers net (account_of backend) resolvers
              (provider_class registry backend.backend_type) t)
            (λ made t' _.
              on_provider-Answers net (provider_class registry backend.backend_type) op hostname
                backend.ttl made t' h))
    ]
