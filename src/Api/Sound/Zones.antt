-- ===== src/Api/Sound/Zones.antt =====
-- The operations on zones keep the tables sound.
use atrium_ddns.Prelude.{
  ℕ, ◌≡◌, inl, inr, refl, sym, ap, ◌∙◌, subst, Bool, true, false, ◌&&◌, not, Option, none, some,
  List, [], ◌∷◌, ◌++◌, IsIn, map, any, filter-IsIn, IsIn-filter, find?-some, ◌==◌, ==_iff, ==_refl,
  Bool-cases, Option-cases, &&_parts, arith, if_true, if_false,
}
use atrium_ddns.Text.{Text, text_eq}
use atrium_ddns.Zone.{zone_contains}
use atrium_ddns.Store.{Tables, Domain, Hostname}
use atrium_ddns.Scope.{
  DdnsScope, sees, predicate, admits, classify, reaches_all_tenants, domain, hostname, owns_domain,
  owns_hostname, select_hostnames, admin,
}
use atrium_ddns.Api.Replies.{
  Database, replied, required-replied, refuse_if-replied, >>=-replied, replied-inj,
}
use atrium_ddns.Api.Backends.{Shipped, BackendIn, bind_backend}
use atrium_ddns.Api.Rows.{get_domain, remove_domain}
use atrium_ddns.Api.Zones.{
  orphans, has_rows, rename_row, normalise_zone, create_domain, rename_domain, delete_domain,
  bind_first,
}
use atrium_ddns.Api.Sound.{IsHoused, IsSound}
use atrium_ddns.Api.Sound.Rows.{
  SameNames, SameNames-IsSound, reply-SameNames, bind_backend-SameNames,
}
use atrium_ddns.Api.Sound.Domains.{
  IsFreshId, IsKeyed-snoc, IsHoused-snoc, IsKeyed-filter, IsHoused-remove, IsKeyed-rename, map-IsIn,
}

-- A zone that is found stands in the table, under its id.
pub get_domain-IsIn :
    (scope : DdnsScope) (t : Tables) (pk : ℕ) (d : Domain)
    → get_domain scope t pk ≡ some d
    → IsIn d t.domains × (d.id ≡ pk) × (sees scope domain (owns_domain d) ≡ true)
unfolding get_domain
get_domain-IsIn scope t pk d h =
    let (found, m) =
      find?-some (λ x. x.id == pk && sees scope domain (owns_domain x)) t.domains {a = d} h in
    let (id, seen) = &&_parts (d.id == pk) (sees scope domain (owns_domain d)) found in
    (m, (==_iff d.id pk).0 id, seen)

any-IsIn :
    (p : Domain → Bool) (ds : List Domain) (d : Domain) → IsIn d ds → p d ≡ true → any p ds ≡ true
any-IsIn p [] d m h = elim m [ ]
any-IsIn p (x ∷ ds) d (inl e) h = let k : p x ≡ true = subst (λ y. p y ≡ true) e h in rw k refl
any-IsIn p (x ∷ ds) d (inr m) h = ground (arith, any-IsIn p ds d m h)

-- Who sees a zone sees the names under it.
sees-hostname :
    (scope : DdnsScope) (t : Tables) (d : Domain) (h : Hostname)
    → IsIn d t.domains
    → d.id ≡ h.domain_id
    → sees scope domain (owns_domain d) ≡ true
    → sees scope hostname (owns_hostname t h) ≡ true
unfolding predicate classify admits
sees-hostname scope t d h m e s = elim (Bool-cases (reaches_all_tenants scope (admin ∷ []))) [
  | inl r ↦ rw r refl
  | inr r ↦ elim (Option-cases scope.user_id) [
    | inl n ↦ absurd (cc (rw (r, n) at s))
    | inr (uid, n) ↦
        let owned : (d.user_id == uid) ≡ true = rw (r, n) at s in
        rw (r, n)
          (any-IsIn (λ x. x.id == h.domain_id && x.user_id == uid) t.domains d m
            (rw (e, ==_refl h.domain_id, owned) refl))
  ]
]

has_rows-none : (hs : List Hostname) (h : Hostname) → has_rows hs ≡ false → ¬ IsIn h hs
has_rows-none [] h e m = elim m [ ]
has_rows-none (x ∷ hs) h e m = cc e

-- A rename that orphans nothing leaves each name under the zone in it.
pub orphans-none :
    (scope : DdnsScope) (t : Tables) (d : Domain) (name : Text) (h : Hostname)
    → has_rows (orphans scope t d.id name) ≡ false
    → IsIn d t.domains
    → sees scope domain (owns_domain d) ≡ true
    → IsIn h t.hostnames
    → d.id ≡ h.domain_id
    → zone_contains name h.name ≡ true
unfolding select_hostnames
orphans-none scope t d name h none_left m s mh e = elim (Bool-cases (zone_contains name h.name)) [
  | inl k ↦ k
  | inr k ↦ absurd (
      has_rows-none (orphans scope t d.id name) h none_left (
        IsIn-filter (λ x. x.domain_id == d.id && not (zone_contains name x.name))
          (select_hostnames scope t) {x = h}
          (IsIn-filter (λ x. sees scope hostname (owns_hostname t x)) t.hostnames {x = h} mh
            (sees-hostname scope t d h m e s))
          (rw (e, ==_refl h.domain_id, k) refl)))
]

renamed-IsHoused :
    (scope : DdnsScope) (t : Tables) (d : Domain) (name : Text) (h : Hostname) (z : Domain)
    → has_rows (orphans scope t d.id name) ≡ false
    → IsIn d t.domains
    → sees scope domain (owns_domain d) ≡ true
    → IsIn h t.hostnames
    → IsIn z t.domains
    → z.id ≡ h.domain_id
    → zone_contains z.name h.name ≡ true
    → IsHoused (map (rename_row d.id name) t.domains) h
renamed-IsHoused scope t d name h z none_left m s mh mz e k = elim (Bool-cases (z.id == d.id)) [
  | inl same ↦
      let id = (==_iff z.id d.id).0 same in
      let renamed : rename_row d.id name z ≡ record z { name = name } = if_true _ _ same in
      (
        record z { name = name },
        subst (λ x. IsIn x (map (rename_row d.id name) t.domains)) renamed
            (map-IsIn (rename_row d.id name) t.domains z mz),
        e,
        orphans-none scope t d name h none_left m s mh (sym id ∙ e),
      )
  | inr other ↦
      let kept : rename_row d.id name z ≡ z = if_false _ _ other in
      (
        z,
        subst (λ x. IsIn x (map (rename_row d.id name) t.domains)) kept
            (map-IsIn (rename_row d.id name) t.domains z mz),
        e,
        k,
      )
]

pub rename_domain-IsSound :
    (db : Database) (scope : DdnsScope) (id : ℕ) (body_name : Text) (t : Tables) {d : Domain}
    {t' : Tables}
    → rename_domain db scope id body_name t ≡ replied (d, t')
    → IsSound t
    → IsSound t'
unfolding rename_domain
rename_domain-IsSound db scope id body_name t {d} {t'} h (k, house) =
    let (d0, found, h1) = required-replied _ _ _ h in
    let (m, e, s) = get_domain-IsIn scope t id d0 found in
    let (x2, h2) = refuse_if-replied _ _ _ h1 in
    let name = normalise_zone body_name in
    elim (Bool-cases (text_eq name d0.name)) [
      | inl same ↦
          SameNames-IsSound t t' (reply-SameNames t (refl, refl) (rw same at h2)) (k, house)
      | inr other ↦
          let (none_left, h3) = refuse_if-replied _ _ _ (rw other at h2) in
          let (x4, h4) = refuse_if-replied _ _ _ h3 in
          subst IsSound (ap (λ (p : Domain × Tables). p.1) (replied-inj h4)) (
            IsKeyed-rename d0.id name t.domains k,
            (λ x mx.
                let (z, mz, ez, kz) = house x mx in
                renamed-IsHoused scope t d0 name x z none_left m s mx mz ez kz),
          )
    ]

pub delete_domain-IsSound :
    (scope : DdnsScope) (id : ℕ) (t : Tables) {t' : Tables}
    → delete_domain scope id t ≡ replied t'
    → IsSound t
    → IsSound t'
unfolding delete_domain remove_domain
delete_domain-IsSound scope id t h (k, house) =
    let (d, e, r) = required-replied _ _ _ h in
    subst IsSound (replied-inj r) (
      IsKeyed-filter (λ x. not (x.id == id)) t.domains k,
      (λ x m.
          let (kept, listed) =
            filter-IsIn (λ (y : Hostname). not (y.domain_id == id)) t.hostnames {x = x} m in
          IsHoused-remove t.domains id x (ground (arith, kept)) (house x listed)),
    )

bind_first-SameNames :
    (db : Database) (shipped : Shipped) (id : ℕ) (d : Domain) (body : Option BackendIn) (t : Tables)
    {d' : Domain} {t' : Tables}
    → bind_first db shipped id d body t ≡ replied (d', t')
    → SameNames t t'
bind_first-SameNames db shipped id d none t h = reply-SameNames t (refl, refl) h
bind_first-SameNames db shipped id d (some body) t h =
    let ((b, t1), e, r) = >>=-replied (bind_backend db shipped id d body t) _ h in
    reply-SameNames t (bind_backend-SameNames db shipped id d body t e) r

pub create_domain-IsSound :
    (db : Database) (shipped : Shipped) (scope : DdnsScope) (id backend_id : ℕ) (body_name : Text)
    (backend : Option BackendIn) (t : Tables) {d : Domain} {t' : Tables}
    → IsFreshId id t.domains
    → create_domain db shipped scope id backend_id body_name backend t ≡ replied (d, t')
    → IsSound t
    → IsSound t'
unfolding create_domain
create_domain-IsSound db shipped scope id backend_id body_name backend t {d} {t'} fresh h
      (k, house) =
    let (user_id, e1, h1) = required-replied _ _ _ h in
    let (x2, h2) = refuse_if-replied _ _ _ h1 in
    let (x3, h3) = refuse_if-replied _ _ _ h2 in
    let row : Domain = record { id = id; user_id = user_id; name = normalise_zone body_name } in
    let t1 = record t { domains = t.domains ++ row ∷ [] } in
    SameNames-IsSound t1 t' (bind_first-SameNames db shipped backend_id row backend t1 h3)
      (IsKeyed-snoc t.domains row k fresh, (λ x m. IsHoused-snoc t.domains row x (house x m)))
