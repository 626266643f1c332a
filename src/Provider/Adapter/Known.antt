-- ===== src/Provider/Adapter/Known.antt =====
-- Which names a map of results has a status for.
use atrium_ddns.Prelude.{◌≡◌, true, List, [], ◌∷◌, All, is_some, arith}
use atrium_ddns.Text.{Text, text_eq_refl}
use atrium_ddns.Dict.{get, put}
use atrium_ddns.Dict.Laws.{get-put}
use atrium_ddns.Status.{Status, dnserr}
use atrium_ddns.Provider.Adapter.{Groups, Results, mark, mark_all, all_dnserr}

pub IsKnown : Results → Text → Type 0
IsKnown results name = is_some (get results name) ≡ true

abbrev pub AllKnown : Results → Groups → Type 0
AllKnown results [] = Unit
AllKnown results ((zonename, hostnames) ∷ groups) =
    All (IsKnown results) hostnames × AllKnown results groups

-- No name has lost its status.
abbrev pub Extends : Results → Results → Type 0
Extends results results' = (name : Text) → IsKnown results name → IsKnown results' name

pub put-Extends : (results : Results) (k : Text) (v : Status) → Extends results (put results k v)
unfolding IsKnown
put-Extends results k v name h = ground (arith, get-put results k name v)

pub put-IsKnown : (results : Results) (k : Text) (v : Status) → IsKnown (put results k v) k
unfolding IsKnown
put-IsKnown results k v = ground (arith, get-put results k k v, text_eq_refl k)

pub All-Extends :
    (results results' : Results) (names : List Text)
    → Extends results results'
    → All (IsKnown results) names
    → All (IsKnown results') names
All-Extends results results' [] e h = tt
All-Extends results results' (name ∷ names) e h =
    (e name h.0, All-Extends results results' names e h.1)

pub mark-Extends :
    (results : Results) (v : Status) (names : List Text) → Extends results (mark results v names)
mark-Extends results v [] name h = h
mark-Extends results v (n ∷ names) name h =
    mark-Extends (put results n v) v names name (put-Extends results n v name h)

pub mark-IsKnown :
    (results : Results) (v : Status) (names : List Text)
    → All (IsKnown (mark results v names)) names
mark-IsKnown results v [] = tt
mark-IsKnown results v (n ∷ names) = (
  mark-Extends (put results n v) v names n (put-IsKnown results n v),
  mark-IsKnown (put results n v) v names,
)

mark_all-Extends : (results : Results) (groups : Groups) → Extends results (mark_all results groups)
mark_all-Extends results [] name h = h
mark_all-Extends results ((zonename, hostnames) ∷ groups) name h =
    mark_all-Extends (mark results dnserr hostnames) groups name
      (mark-Extends results dnserr hostnames name h)

mark_all-AllKnown :
    (results : Results) (groups : Groups) → AllKnown (mark_all results groups) groups
mark_all-AllKnown results [] = tt
mark_all-AllKnown results ((zonename, hostnames) ∷ groups) =
    let marked = mark results dnserr hostnames in
    (
      All-Extends marked (mark_all marked groups) hostnames (mark_all-Extends marked groups)
          (mark-IsKnown results dnserr hostnames),
      mark_all-AllKnown marked groups,
    )

-- An account without credentials is answered for every name handed over.
pub all_dnserr-AllKnown : (groups : Groups) → AllKnown (all_dnserr groups) groups
unfolding all_dnserr
all_dnserr-AllKnown groups = mark_all-AllKnown [] groups
