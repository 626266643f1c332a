-- ===== src/Provider/Zones/Containment.antt =====
-- An adapter reaches the configured domains and no other, whatever its provider lists.
use mathlib.Core.Option.{some_inj}
use atrium_ddns.Prelude.{
  ◌≡◌, Option, none, some, List, [], ◌∷◌, ◌⊎◌, inl, inr, IsIn, All, All-append, true, arith,
  Bool-cases, Option-cases, ap, subst, ◌∙◌, or_default, ◌++◌, refl,
}
use atrium_ddns.Text.{Text, text_eq_iff}
use atrium_ddns.Dict.{Dict, get, put, keys}
use atrium_ddns.Dict.Laws.{keys-put, get-put}
use atrium_ddns.Zone.{zone_contains}
use atrium_ddns.Provider.Account.{Account, Provider, seed, seeded}
use atrium_ddns.Provider.Zones.{
  bind_to, bind_domain, bind_domains, map_domains_to_zones, domaininhostname, hostnameperzone,
  first_containing, group_hostnames, add_to_group, closest, text_eq, is_empty,
}

-- Every domain that the adapter knows is one of its account's.
abbrev pub IsContained : Provider → Type 0
IsContained p = (d : Text) → IsIn d (keys p.zones) → IsIn d p.account.domains

seeded_keys :
    (d : Dict Text) (domains : List Text) (j : Text)
    → IsIn j (keys (seeded d domains))
    → IsIn j (keys d) ⊎ IsIn j domains
unfolding seeded
seeded_keys d [] j h = inl h
seeded_keys d (domain ∷ domains) j h = elim (seeded_keys (put d domain domain) domains j h) [
  | inl m ↦ elim (keys-put d domain j domain m) [ inl old ↦ inl old | inr new ↦ inr (inl new) ]
  | inr later ↦ inr (inr later)
]

pub seed-IsContained :
    (account : Account) (resolvers : List Text) → IsContained (seed account resolvers)
unfolding seed
seed-IsContained account resolvers j h = elim (seeded_keys [] account.domains j h) [
  | inl m ↦ elim m [ ]
  | inr m ↦ m
]

seed-account :
    (account : Account) (resolvers : List Text) → (seed account resolvers).account ≡ account
unfolding seed
seed-account account resolvers = refl

bind_to-account :
    (api_zones : Dict Text) (p : Provider) (domain : Text) (best : Option Text)
    → (bind_to api_zones p domain best).account ≡ p.account
bind_to-account api_zones p domain none = refl
bind_to-account api_zones p domain (some best) = refl

bind_to-keys :
    (api_zones : Dict Text) (p : Provider) (domain : Text) (best : Option Text) (j : Text)
    → IsIn j (keys (bind_to api_zones p domain best).zones)
    → IsIn j (keys p.zones) ⊎ (j ≡ domain)
bind_to-keys api_zones p domain none j h = inl h
bind_to-keys api_zones p domain (some best) j h = keys-put p.zones domain j _ h

-- Binding domains of an account keeps the account and adds no others.
module _ (api_zones : Dict Text) (account : Account) where
  bind_domains-IsContained :
      (p : Provider) (domains : List Text)
      → p.account ≡ account
      → ((d : Text) → IsIn d domains → IsIn d account.domains)
      → ((d : Text) → IsIn d (keys p.zones) → IsIn d account.domains)
      → ((bind_domains api_zones p domains).account ≡ account)
        × ((d : Text)
            → IsIn d (keys (bind_domains api_zones p domains).zones)
            → IsIn d account.domains)
  unfolding bind_domains bind_domain
  bind_domains-IsContained p [] e ours held = (e, held)
  bind_domains-IsContained p (domain ∷ domains) e ours held =
      let best = closest domain none (keys api_zones) in
      bind_domains-IsContained (bind_to api_zones p domain best) domains
        (bind_to-account api_zones p domain best ∙ e) (λ d m. ours d (inr m))
        (λ d m. elim (bind_to-keys api_zones p domain best d m) [
          | inl old ↦ held d old
          | inr new ↦ ours d (inl new)
        ])

pub map_domains_to_zones-IsContained :
    (p : Provider) (api_zones : Dict Text)
    → IsContained p
    → IsContained (map_domains_to_zones p api_zones)
unfolding map_domains_to_zones
map_domains_to_zones-IsContained p api_zones held d m =
    let (same, kept) =
      bind_domains-IsContained api_zones p.account p p.account.domains refl (λ d m. m) held in
    rw (ap (λ (c : Account). c.domains) same) (kept d m)

first_containing-some :
    (domains : List Text) (hostname d : Text)
    → first_containing domains hostname ≡ some d
    → IsIn d domains × (zone_contains d hostname ≡ true)
unfolding first_containing
first_containing-some [] hostname d h = cc
first_containing-some (x ∷ domains) hostname d h =
    ground (arith, first_containing-some domains hostname d)

-- A group holds names that lie in its domain, and its domain is one of the adapter's.
abbrev IsGroup : Provider → Text → List Text → Type 0
IsGroup p d names = IsIn d (keys p.zones) × All (λ h. zone_contains d h ≡ true) names

abbrev AreGroups : Provider → Dict (List Text) → Type 0
AreGroups p grouped =
    (d : Text) (names : List Text) → get grouped d ≡ some names → IsGroup p d names

held_names :
    (p : Provider) (grouped : Dict (List Text)) (d : Text)
    → AreGroups p grouped
    → All (λ h. zone_contains d h ≡ true) (or_default (get grouped d) [])
held_names p grouped d groups = elim (Option-cases (get grouped d)) [
  | inl e ↦ rw e tt
  | inr (names, e) ↦ rw e (groups d names e).1
]

add_to_group-AreGroups :
    (p : Provider) (grouped : Dict (List Text)) (d hostname : Text)
    → IsIn d (keys p.zones)
    → zone_contains d hostname ≡ true
    → AreGroups p grouped
    → AreGroups p (add_to_group grouped d hostname)
add_to_group-AreGroups p grouped d hostname known inside groups j names h =
    let law = get-put grouped d j (or_default (get grouped d) [] ++ hostname ∷ []) in
    elim (Bool-cases (text_eq d j)) [
      | inl same ↦
          let e : d ≡ j = (text_eq_iff d j).0 same in
          let all =
            All-append _ (or_default (get grouped d) []) (hostname ∷ [])
              (held_names p grouped d groups) (inside, tt) in
          let eq : some names ≡ some (or_default (get grouped d) [] ++ hostname ∷ []) =
            ground (arith, law) in
          subst (λ (x : Text). IsGroup p x names) e (known, rw (some_inj.0 eq) all)
      | inr other ↦ groups j names (ground (arith, law))
    ]

group_hostnames-AreGroups :
    (p : Provider) (grouped : Dict (List Text)) (hostnames : List Text) {result : Dict (List Text)}
    → AreGroups p grouped
    → group_hostnames p grouped hostnames ≡ some result
    → AreGroups p result
unfolding group_hostnames domaininhostname
group_hostnames-AreGroups p grouped [] groups h = subst (AreGroups p) (some_inj.0 h) groups
group_hostnames-AreGroups p grouped (hostname ∷ hostnames) {result} groups h =
    elim (Option-cases (domaininhostname p hostname)) [
      | inl e ↦ absurd (cc (rw (e, group_hostnames) at h))
      | inr (d, e) ↦ elim (Bool-cases (is_empty d)) [
        | inl empty ↦ absurd (ground (arith, h))
        | inr filled ↦
            let (known, inside) = first_containing-some (keys p.zones) hostname d e in
            group_hostnames-AreGroups p (add_to_group grouped d hostname) hostnames
              {result = result} (add_to_group-AreGroups p grouped d hostname known inside groups)
              (ground (arith, h))
      ]
    ]

map_domains-account :
    (p : Provider) (api_zones : Dict Text)
    → IsContained p
    → (map_domains_to_zones p api_zones).account ≡ p.account
unfolding map_domains_to_zones
map_domains-account p api_zones held =
    (bind_domains-IsContained api_zones p.account p p.account.domains refl (λ d m. m) held).0

-- Whatever zones the provider lists, the names that an adapter of an account is handed are grouped
-- under domains of that account, and each name lies in the domain that it is grouped under.
pub adapter_reach :
    (account : Account) (resolvers : List Text) (api_zones : Dict Text) (hostnames : List Text)
    {grouped : Dict (List Text)} (d : Text) {names : List Text}
    → hostnameperzone (map_domains_to_zones (seed account resolvers) api_zones) hostnames
      ≡ some grouped
    → get grouped d ≡ some names
    → IsIn d account.domains × All (λ h. zone_contains d h ≡ true) names
unfolding hostnameperzone
adapter_reach account resolvers api_zones hostnames {grouped} d {names} h found =
    let p = seed account resolvers in
    let held = seed-IsContained account resolvers in
    let q = map_domains_to_zones p api_zones in
    let group =
      group_hostnames-AreGroups q [] hostnames {result = grouped} (λ d names e. absurd (cc e)) h d
        names found in
    let here : IsIn d q.account.domains =
      map_domains_to_zones-IsContained p api_zones held d group.0 in
    (
      subst (λ (c : Account). IsIn d c.domains)
          (map_domains-account p api_zones held ∙ seed-account account resolvers) here,
      group.1,
    )
