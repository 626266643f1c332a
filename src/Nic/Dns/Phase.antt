-- ===== src/Nic/Dns/Phase.antt =====
-- What `run_dns_phase` answers for each plan.
use atrium_ddns.Prelude.{
  ◌≡◌, refl, sym, subst, true, false, some, List, [], ◌∷◌, All, map, Bool-cases, inl, inr,
}
use atrium_ddns.Text.{Text}
use atrium_ddns.Status.{Status, nohost, unknown_service}
use atrium_ddns.Provider.Network.{◌>>=◌, Net, Trace, Outcome, ok, raise}
use atrium_ddns.Provider.Registry.{Registry}
use atrium_ddns.Nic.Dns.{
  BackendPlan, HostnamePlan, HostnameResult, Op, aggregate, resolved, run_backend, run_backends,
  run_plan, run_backends_of, run_dns_phase, statuses_of, finish, pure,
}
use atrium_ddns.Provider.Network.Outcomes.{Answers, Answers-bind, Ends-equal}
use atrium_ddns.Nic.Dns.Contribution.{IsContribution, run_backend-IsContribution}
use atrium_ddns.Nic.Dns.Aggregate.{aggregate_total}

-- The attempts at the backends of a name, one after the other: each holds what its own backend contributed
-- after the calls made until then.
pub data AreAttempts (net : Net) (registry : Registry) (resolvers : List Text) (op : Op)
    (hostname : Text) : List BackendPlan → Trace → List (Text × Status) → Trace → Type 0 where
  tried_all : {t : Trace} → AreAttempts net registry resolvers op hostname [] t [] t
  tried :
      {backend : BackendPlan} {backends : List BackendPlan} {attempts : List (Text × Status)}
      {status : Status} {t t' t'' : Trace}
      → IsContribution net registry resolvers hostname backend op t status t'
      → AreAttempts net registry resolvers op hostname backends t' attempts t''
      → AreAttempts net registry resolvers op hostname
          (backend ∷ backends)
          t
          ((backend.backend_type, status) ∷ attempts)
          t''

-- The result of a plan, from the calls made before it to those made after it.
pub data IsAnswer (net : Net) (registry : Registry) (resolvers : List Text) (op : Op)
    : HostnamePlan → Trace → HostnameResult → Trace → Type 0 where
  -- A name that is not the device's: `nohost`, and no provider asked.
  unknown_name :
      {plan : HostnamePlan} {t : Trace}
      → resolved plan ≡ false
      → IsAnswer net registry resolvers op plan t
          (record { plan = plan; attempts = []; status = nohost })
          t
  -- A name with no backend: 911, and no provider asked.
  no_backend :
      {plan : HostnamePlan} {t : Trace}
      → resolved plan ≡ true
      → plan.backends ≡ []
      → IsAnswer net registry resolvers op plan t
          (record { plan = plan; attempts = []; status = unknown_service })
          t
  -- Otherwise an attempt for each backend, in their order, and the aggregate of their statuses.
  attempted :
      {plan : HostnamePlan} {attempts : List (Text × Status)} {status : Status} {t t' : Trace}
      → resolved plan ≡ true
      → AreAttempts net registry resolvers op plan.lookup plan.backends t attempts t'
      → aggregate (statuses_of attempts) ≡ some status
      → IsAnswer net registry resolvers op plan t
          (record { plan = plan; attempts = attempts; status = status })
          t'

-- The results of the plans, each from where the one before it ended.
pub data AreAnswers (net : Net) (registry : Registry) (resolvers : List Text) (op : Op)
    : List HostnamePlan → Trace → List HostnameResult → Trace → Type 0 where
  answered_all : {t : Trace} → AreAnswers net registry resolvers op [] t [] t
  answered :
      {plan : HostnamePlan} {plans : List HostnamePlan} {result : HostnameResult}
      {results : List HostnameResult} {t t' t'' : Trace}
      → IsAnswer net registry resolvers op plan t result t'
      → AreAnswers net registry resolvers op plans t' results t''
      → AreAnswers net registry resolvers op (plan ∷ plans) t (result ∷ results) t''

-- Every backend of the plan answers its name, whatever has been asked before.
abbrev pub BackendAnswers : Net → Registry → List Text → Op → Text → BackendPlan → Type 0
BackendAnswers net registry resolvers op hostname backend =
    (t : Trace) → Answers (λ _ _. Unit) (run_backend net registry resolvers op hostname backend t)

abbrev pub AllAnswer : Net → Registry → List Text → Op → HostnamePlan → Type 0
AllAnswer net registry resolvers op plan =
    All (BackendAnswers net registry resolvers op plan.lookup) plan.backends

-- A run with a result, and what that result is.
Answers-run :
    {A : Type 0} (r : Outcome A × Trace)
    → Answers (λ _ _. Unit) r
    → Answers (λ x t. r ≡ (ok x, t)) r
Answers-run (ok x, t) h = refl
Answers-run (raise, t) h = elim h [ ]

run_backends-AreAttempts :
    (net : Net) (registry : Registry) (resolvers : List Text) (op : Op) (hostname : Text)
    (backends : List BackendPlan) (t : Trace)
    → All (BackendAnswers net registry resolvers op hostname) backends
    → Answers
        (AreAttempts net registry resolvers op hostname backends t)
        (run_backends net registry resolvers op hostname backends t)
unfolding run_backends
run_backends-AreAttempts net registry resolvers op hostname [] t live = tried_all
run_backends-AreAttempts net registry resolvers op hostname (backend ∷ backends) t live =
    Answers-bind
      (λ status t'. run_backend net registry resolvers op hostname backend t ≡ (ok status, t'))
      (AreAttempts net registry resolvers op hostname (backend ∷ backends) t)
      (run_backend net registry resolvers op hostname backend)
      (λ status. run_backends net registry resolvers op hostname backends >>= λ attempts.
        pure ((backend.backend_type, status) ∷ attempts))
      t (Answers-run (run_backend net registry resolvers op hostname backend t) (live.0 t))
      (λ status t' here.
        Answers-bind (AreAttempts net registry resolvers op hostname backends t')
          (AreAttempts net registry resolvers op hostname (backend ∷ backends) t)
          (run_backends net registry resolvers op hostname backends)
          (λ attempts. pure ((backend.backend_type, status) ∷ attempts)) t'
          (run_backends-AreAttempts net registry resolvers op hostname backends t' live.1)
          (λ attempts t'' rest.
            tried
              (Ends-equal (IsContribution net registry resolvers hostname backend op t)
                (run_backend net registry resolvers op hostname backend t) here
                (run_backend-IsContribution net registry resolvers op hostname backend t))
              rest))

-- Attempts at one backend or more have an aggregate.
finish-IsAnswer :
    (net : Net) (registry : Registry) (resolvers : List Text) (op : Op) (plan : HostnamePlan)
    (backend : BackendPlan) (backends : List BackendPlan) (attempts : List (Text × Status))
    (t t' : Trace)
    → resolved plan ≡ true
    → plan.backends ≡ backend ∷ backends
    → AreAttempts net registry resolvers op plan.lookup (backend ∷ backends) t attempts t'
    → Answers
        (IsAnswer net registry resolvers op plan t)
        (finish plan attempts (aggregate (statuses_of attempts)) t')
finish-IsAnswer net registry resolvers op plan backend backends ((backend_type, status) ∷ attempts)
      t t' r e h =
    let (first, a) = aggregate_total status (statuses_of attempts) in
    rw a (
      attempted r
        (subst
          (λ bs.
            AreAttempts net registry resolvers op plan.lookup bs t
              ((backend_type, status) ∷ attempts) t')
          (sym e) h)
        a)
finish-IsAnswer net registry resolvers op plan backend backends [] t t' r e h = elim h [ ]

run_backends_of-IsAnswer :
    (net : Net) (registry : Registry) (resolvers : List Text) (op : Op) (plan : HostnamePlan)
    (backends : List BackendPlan) (t : Trace)
    → plan.backends ≡ backends
    → resolved plan ≡ true
    → All (BackendAnswers net registry resolvers op plan.lookup) backends
    → Answers
        (IsAnswer net registry resolvers op plan t)
        (run_backends_of net registry resolvers op plan backends t)
run_backends_of-IsAnswer net registry resolvers op plan [] t e r live = no_backend r e
run_backends_of-IsAnswer net registry resolvers op plan (backend ∷ backends) t e r live =
    Answers-bind (AreAttempts net registry resolvers op plan.lookup (backend ∷ backends) t)
      (IsAnswer net registry resolvers op plan t)
      (run_backends net registry resolvers op plan.lookup (backend ∷ backends))
      (λ attempts. finish plan attempts (aggregate (statuses_of attempts))) t
      (run_backends-AreAttempts net registry resolvers op plan.lookup (backend ∷ backends) t live)
      (λ attempts t' h.
        finish-IsAnswer net registry resolvers op plan backend backends attempts t t' r e h)

run_plan-IsAnswer :
    (net : Net) (registry : Registry) (resolvers : List Text) (op : Op) (plan : HostnamePlan)
    (t : Trace)
    → AllAnswer net registry resolvers op plan
    → Answers
        (IsAnswer net registry resolvers op plan t)
        (run_plan net registry resolvers op plan t)
unfolding run_plan
run_plan-IsAnswer net registry resolvers op plan t live = elim (Bool-cases (resolved plan)) [
  | inl r ↦
      rw r (run_backends_of-IsAnswer net registry resolvers op plan plan.backends t refl r live)
  | inr r ↦ rw r (unknown_name r)
]

-- A DNS phase whose backends do not raise ends, with one result for each plan, in their order: `nohost`
-- for a name that is not resolved, 911 for one without backends, and otherwise an attempt for each backend,
-- in their order, and the aggregate of their statuses. An attempt holds 911 without credentials or a
-- provider, `nohost` for a name outside the provider's zones, and else what its adapter answered for the
-- name, or `dnserr` when it did not say. Nobody else is asked.
pub run_dns_phase-Answers :
    (net : Net) (registry : Registry) (plans : List HostnamePlan) (op : Op) (resolvers : List Text)
    (t : Trace)
    → All (AllAnswer net registry resolvers op) plans
    → Answers
        (AreAnswers net registry resolvers op plans t)
        (run_dns_phase net registry plans op resolvers t)
unfolding run_dns_phase
run_dns_phase-Answers net registry [] op resolvers t live = answered_all
run_dns_phase-Answers net registry (plan ∷ plans) op resolvers t live =
    Answers-bind (IsAnswer net registry resolvers op plan t)
      (AreAnswers net registry resolvers op (plan ∷ plans) t)
      (run_plan net registry resolvers op plan)
      (λ result.
        run_dns_phase net registry plans op resolvers >>= λ results. pure (result ∷ results))
      t (run_plan-IsAnswer net registry resolvers op plan t live.0)
      (λ result t' a.
        Answers-bind (AreAnswers net registry resolvers op plans t')
          (AreAnswers net registry resolvers op (plan ∷ plans) t)
          (run_dns_phase net registry plans op resolvers) (λ results. pure (result ∷ results)) t'
          (run_dns_phase-Answers net registry plans op resolvers t' live.1)
          (λ results t'' b. answered a b))

-- A result is of its plan.
IsAnswer-plan :
    {net : Net} {registry : Registry} {resolvers : List Text} {op : Op} {plan : HostnamePlan}
    {t t' : Trace} {result : HostnameResult}
    → IsAnswer net registry resolvers op plan t result t'
    → result.plan ≡ plan
IsAnswer-plan (unknown_name r) = refl
IsAnswer-plan (no_backend r e) = refl
IsAnswer-plan (attempted r h a) = refl

pub AreAnswers-plans :
    {net : Net} {registry : Registry} {resolvers : List Text} {op : Op} {plans : List HostnamePlan}
    {t t' : Trace} {results : List HostnameResult}
    → AreAnswers net registry resolvers op plans t results t'
    → map (λ result. result.plan) results ≡ plans
AreAnswers-plans answered_all = refl
AreAnswers-plans (answered a rest) = rw (IsAnswer-plan a, AreAnswers-plans rest) refl
