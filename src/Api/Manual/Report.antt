-- ===== src/Api/Manual/Report.antt =====
-- What the reply of `manual_update` says of each backend.
use atrium_ddns.Prelude.{ℕ, ◌≡◌, refl, ap, List, [], ◌∷◌, ◌++◌, map}
use atrium_ddns.Text.{Text}
use atrium_ddns.Status.{Status}
use atrium_ddns.Provider.Network.{Net, Trace}
use atrium_ddns.Provider.Registry.{Registry}
use atrium_ddns.Nic.Dns.{BackendPlan, HostnamePlan, HostnameResult, Op}
use atrium_ddns.Nic.Dns.Phase.{
  AreAttempts, tried_all, tried, IsAnswer, unknown_name, no_backend, attempted,
}
use atrium_ddns.Api.Manual.{BackendAttemptOut, attempts_of}

-- The attempts that a reply shows, as the results have them.
abbrev pub shown_attempts : List BackendAttemptOut → List (Text × Status)
shown_attempts [] = []
shown_attempts (x ∷ xs) = (x.backend_type, x.status) ∷ shown_attempts xs

-- The bindings of these attempts are the first ones of the plan, in its order.
pub record AreFirst (backends : List BackendPlan) (shown : List BackendAttemptOut) : Type 0 where
  pub untried : List ℕ
  pub ids :
      map (λ (x : BackendAttemptOut). x.backend_id) shown ++ untried
      ≡ map (λ (b : BackendPlan). b.backend_id) backends

pub attempts_of-AreFirst :
    (backends : List BackendPlan) (attempts : List (Text × Status))
    → AreFirst backends (attempts_of backends attempts)
attempts_of-AreFirst [] [] = record { untried = []; ids = refl }
attempts_of-AreFirst [] (attempt ∷ attempts) = record { untried = []; ids = refl }
attempts_of-AreFirst (b ∷ bs) [] = record {
  untried = map (λ (b : BackendPlan). b.backend_id) (b ∷ bs);
  ids = refl;
}
attempts_of-AreFirst (b ∷ bs) ((backend_type, status) ∷ attempts) =
    let rest = attempts_of-AreFirst bs attempts in
    record { untried = rest.untried; ids = ap (λ (ids : List ℕ). b.backend_id ∷ ids) rest.ids }

attempts_of-empty : (backends : List BackendPlan) → attempts_of backends [] ≡ []
attempts_of-empty [] = refl
attempts_of-empty (b ∷ bs) = refl

attempts_of-attempted :
    {net : Net} {registry : Registry} {resolvers : List Text} {op : Op} {hostname : Text}
    {backends : List BackendPlan} {attempts : List (Text × Status)} {t t' : Trace}
    → AreAttempts net registry resolvers op hostname backends t attempts t'
    → shown_attempts (attempts_of backends attempts) ≡ attempts
attempts_of-attempted tried_all = refl
attempts_of-attempted (tried {backend = backend} {status = status} e rest) =
    ap (λ (xs : List (Text × Status)). (backend.backend_type, status) ∷ xs)
      (attempts_of-attempted rest)

-- Every attempt of a result is shown.
pub attempts_of-IsAnswer :
    {net : Net} {registry : Registry} {resolvers : List Text} {op : Op} {plan : HostnamePlan}
    {result : HostnameResult} {t t' : Trace}
    → IsAnswer net registry resolvers op plan t result t'
    → shown_attempts (attempts_of plan.backends result.attempts) ≡ result.attempts
attempts_of-IsAnswer (unknown_name {plan = plan} e) =
    ap shown_attempts (attempts_of-empty plan.backends)
attempts_of-IsAnswer (no_backend {plan = plan} e f) =
    ap shown_attempts (attempts_of-empty plan.backends)
attempts_of-IsAnswer (attempted e tries f) = attempts_of-attempted tries
