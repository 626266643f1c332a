-- ===== src/Api/Sound/Published.antt =====
-- The choice of bindings and the adoption of addresses leave each name in its zone.
use atrium_ddns.Prelude.{
  ℕ, ◌≡◌, inl, inr, refl, sym, ap, ◌∙◌, subst, Bool-cases, if_true, if_false, Option, List, [], ◌∷◌,
  IsIn, ◌==◌, true,
}
use atrium_ddns.Text.{Text}
use atrium_ddns.Zone.{zone_contains}
use atrium_ddns.Store.{Tables, Hostname, Instant, change_hostname}
use atrium_ddns.Scope.{DdnsScope}
use atrium_ddns.Api.Replies.{replied, replied-inj, refuse_if-replied, >>=-replied}
use atrium_ddns.Api.Publishing.{
  HostnamePublishingIn, HostnamePublishingOut, load_publishing, set_hostname_publishing, set_ttl,
}
use atrium_ddns.Api.Adopt.{adopt_zone, adopt}
use atrium_ddns.Api.Sound.{IsSound}

-- A row of a changed table is of the same name and zone as one that was there.
IsIn-change_hostname :
    (id : ℕ) (f : Hostname → Hostname) (hs : List Hostname) (x : Hostname)
    → ((y : Hostname) → ((f y).name ≡ y.name) × ((f y).domain_id ≡ y.domain_id))
    → IsIn x (change_hostname id f hs)
    → (y : Hostname) × IsIn y hs × (x.name ≡ y.name) × (x.domain_id ≡ y.domain_id)
IsIn-change_hostname id f [] x k m = elim m [ ]
IsIn-change_hostname id f (h ∷ hs) x k m = elim m [
  | inr later ↦ let (y, my, n, z) = IsIn-change_hostname id f hs x k later in (y, inr my, n, z)
  | inl e ↦ elim (Bool-cases (h.id == id)) [
    | inl hit ↦
        let same : x ≡ f h = e ∙ if_true _ _ hit in
        (
          h,
          inl refl,
          ap (λ (y : Hostname). y.name) same ∙ (k h).0,
          ap (λ (y : Hostname). y.domain_id) same ∙ (k h).1,
        )
    | inr miss ↦
        let same : x ≡ h = e ∙ if_false _ _ miss in
        (h, inl refl, ap (λ (y : Hostname). y.name) same, ap (λ (y : Hostname). y.domain_id) same)
  ]
]

change_hostname-IsSound :
    (id : ℕ) (f : Hostname → Hostname) (t : Tables)
    → ((y : Hostname) → ((f y).name ≡ y.name) × ((f y).domain_id ≡ y.domain_id))
    → IsSound t
    → IsSound (record t { hostnames = change_hostname id f t.hostnames })
change_hostname-IsSound id f t k (keyed, house) = (
  keyed,
  (λ x m.
      let (y, my, same_name, same_zone) = IsIn-change_hostname id f t.hostnames x k m in
      let (d, md, e, inside) = house y my in
      (
        d,
        md,
        e ∙ sym same_zone,
        subst (λ n. zone_contains d.name n ≡ true) (sym same_name) inside,
      )),
)

pub set_hostname_publishing-IsSound :
    (scope : DdnsScope) (id : ℕ) (body : HostnamePublishingIn) (t : Tables)
    {out : HostnamePublishingOut} {t' : Tables}
    → set_hostname_publishing scope id body t ≡ replied (out, t')
    → IsSound t
    → IsSound t'
unfolding set_hostname_publishing
set_hostname_publishing-IsSound scope id body t h s =
    let (x1, h1) = refuse_if-replied _ _ _ h in
    let (p, loaded, h2) = >>=-replied (load_publishing scope t id) _ h1 in
    let (known, h3) = refuse_if-replied _ _ _ h2 in
    let (again, reloaded, h4) = >>=-replied _ _ h3 in
    subst IsSound (ap (λ (r : HostnamePublishingOut × Tables). r.1) (replied-inj h4))
      (change_hostname-IsSound p.0.id (set_ttl body.ttl) t (λ y. (refl, refl)) s)

pub adopt_zone-IsSound :
    (repr : Option Text → Text) (logged : ℕ → Instant) (scope : DdnsScope) (id : ℕ) (t : Tables)
    {h' : Hostname} {t' : Tables}
    → adopt_zone repr logged scope id t ≡ replied (h', t')
    → IsSound t
    → IsSound t'
unfolding adopt_zone adopt
adopt_zone-IsSound repr logged scope id t h s =
    let (p, loaded, h1) = >>=-replied (load_publishing scope t id) _ h in
    let (seen, h2) = refuse_if-replied _ _ _ h1 in
    let (differed, h3) = refuse_if-replied _ _ _ h2 in
    subst IsSound (ap (λ (r : Hostname × Tables). r.1) (replied-inj h3))
      (change_hostname-IsSound p.0.id adopt t (λ y. (refl, refl)) s)
