-- ===== src/Provider/Registry/Laws.antt =====
-- What a registration changes, and what it refuses.
use atrium_ddns.Prelude.{◌≡◌, refl, some, [], ◌∷◌, arith, IsIn, inl, inr, List, ◌≢◌, sym, ◌∙◌}
use atrium_ddns.Text.{Text, text_eq_iff}
use atrium_ddns.Dict.{get, put}
use atrium_ddns.Dict.Laws.{get-put}
use atrium_ddns.Provider.Adapter.{Adapter}
use atrium_ddns.Provider.Registry.{Registry, register, claim, service_names, provider_class}

-- A name that the claimed ones include is the adapter's; any other name is as it was.
claim_held :
    (registry : Registry) (adapter : Adapter) (names : List Text) (name : Text)
    → get registry name ≡ some adapter
    → get (claim registry adapter names) name ≡ some adapter
unfolding claim
claim_held registry adapter [] name h = h
claim_held registry adapter (n ∷ names) name h =
    claim_held (put registry n adapter) adapter names name
      (ground (arith, get-put registry n name adapter))

claim_names :
    (registry : Registry) (adapter : Adapter) (names : List Text) (name : Text)
    → IsIn name names
    → get (claim registry adapter names) name ≡ some adapter
unfolding claim
claim_names registry adapter [] name m = elim m [ ]
claim_names registry adapter (n ∷ names) name (inl e) =
    claim_held (put registry n adapter) adapter names name
      (ground (arith, get-put registry n name adapter, text_eq_iff n name))
claim_names registry adapter (n ∷ names) name (inr m) =
    claim_names (put registry n adapter) adapter names name m

claim_others :
    (registry : Registry) (adapter : Adapter) (names : List Text) (name : Text)
    → ¬ IsIn name names
    → get (claim registry adapter names) name ≡ get registry name
unfolding claim
claim_others registry adapter [] name m = refl
claim_others registry adapter (n ∷ names) name m =
    let differs : n ≢ name = λ e. m (inl (sym e)) in
    claim_others (put registry n adapter) adapter names name (λ i. m (inr i))
    ∙ ground (arith, get-put registry n name adapter, text_eq_iff n name)

registered :
    (registry : Registry) (adapter : Adapter) {next : Registry}
    → register registry adapter ≡ some next
    → next ≡ claim registry adapter (service_names adapter)
unfolding register
registered registry adapter {next} h = ground arith

-- A registration that is accepted binds every name of the class to it.
pub register-binds :
    (registry : Registry) (adapter : Adapter) {next : Registry} (name : Text)
    → register registry adapter ≡ some next
    → IsIn name (service_names adapter)
    → provider_class next name ≡ some adapter
register-binds registry adapter {next} name h m =
    rw (registered registry adapter {next = next} h)
      (claim_names registry adapter (service_names adapter) name m)

-- A registration that is accepted leaves every name that is not the class's as it was.
pub register-leaves :
    (registry : Registry) (adapter : Adapter) {next : Registry} (name : Text)
    → register registry adapter ≡ some next
    → ¬ IsIn name (service_names adapter)
    → provider_class next name ≡ provider_class registry name
register-leaves registry adapter {next} name h m =
    rw (registered registry adapter {next = next} h)
      (claim_others registry adapter (service_names adapter) name m)
