-- ===== src/Provider/Network/Outcomes.antt =====
-- Reasoning about runs: what holds of every result, and runs that have one.
use atrium_ddns.Prelude.{◌≡◌}
use atrium_ddns.Provider.Network.{Trace, Outcome, ok, raise, Exec, ◌>>=◌, continue}

module _ {ℓ} {A : Type ℓ} where
  -- The predicate holds of the result and the calls, if the run has a result. An exception has none.
  abbrev pub Ends : (A → Trace → Type 0) → Outcome A × Trace → Type 0
  Ends P (ok x, t) = P x t
  Ends P (raise, t) = Unit

  -- The run has a result, and the predicate holds of it.
  abbrev pub Answers : (A → Trace → Type 0) → Outcome A × Trace → Type 0
  Answers P (ok x, t) = P x t
  Answers P (raise, t) = ⊥

  pub Ends-equal :
      (P : A → Trace → Type 0) (r : Outcome A × Trace) {x : A} {t : Trace}
      → r ≡ (ok x, t)
      → Ends P r
      → P x t
  Ends-equal P r e h = rw e at h

module _ {ℓ κ} {A : Type ℓ} {B : Type κ} where
  Ends-continue :
      (P : A → Trace → Type 0) (Q : B → Trace → Type 0) (r : Outcome A × Trace) (f : A → Exec B)
      → Ends P r
      → ((x : A) (t : Trace) → P x t → Ends Q (f x t))
      → Ends Q (continue r.0 f r.1)
  Ends-continue P Q (ok x, t) f h k = k x t h
  Ends-continue P Q (raise, t) f h k = tt

  pub Ends-bind :
      (P : A → Trace → Type 0) (Q : B → Trace → Type 0) (m : Exec A) (f : A → Exec B) (t : Trace)
      → Ends P (m t)
      → ((x : A) (t' : Trace) → P x t' → Ends Q (f x t'))
      → Ends Q ((m >>= f) t)
  Ends-bind P Q m f t h k = Ends-continue P Q (m t) f h k

  Answers-continue :
      (P : A → Trace → Type 0) (Q : B → Trace → Type 0) (r : Outcome A × Trace) (f : A → Exec B)
      → Answers P r
      → ((x : A) (t : Trace) → P x t → Answers Q (f x t))
      → Answers Q (continue r.0 f r.1)
  Answers-continue P Q (ok x, t) f h k = k x t h
  Answers-continue P Q (raise, t) f h k = elim h [ ]

  pub Answers-bind :
      (P : A → Trace → Type 0) (Q : B → Trace → Type 0) (m : Exec A) (f : A → Exec B) (t : Trace)
      → Answers P (m t)
      → ((x : A) (t' : Trace) → P x t' → Answers Q (f x t'))
      → Answers Q ((m >>= f) t)
  Answers-bind P Q m f t h k = Answers-continue P Q (m t) f h k

module _ {ℓ} {A : Type ℓ} where
  pub Ends-any : (r : Outcome A × Trace) → Ends (λ x t. Unit) r
  Ends-any (ok x, t) = tt
  Ends-any (raise, t) = tt

  pub Answers-mono :
      (P Q : A → Trace → Type 0) (r : Outcome A × Trace)
      → Answers P r
      → ((x : A) (t : Trace) → P x t → Q x t)
      → Answers Q r
  Answers-mono P Q (ok x, t) h k = k x t h
  Answers-mono P Q (raise, t) h k = elim h [ ]

  pub Ends-mono :
      (P Q : A → Trace → Type 0) (r : Outcome A × Trace)
      → Ends P r
      → ((x : A) (t : Trace) → P x t → Q x t)
      → Ends Q r
  Ends-mono P Q (ok x, t) h k = k x t h
  Ends-mono P Q (raise, t) h k = tt
