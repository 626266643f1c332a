-- ===== src/Api/Sound/Names.antt =====
-- The operations on host names keep the tables sound.
use atrium_ddns.Prelude.{
  ℕ, ◌≡◌, inl, inr, refl, sym, ap, ◌∙◌, subst, true, not, Option, none, some, IsIn, filter-IsIn,
  find?-some, ◌==◌, Bool-cases, if_true, if_false, or_default, arith, if◌then◌else◌,
}
use atrium_ddns.Text.{Text}
use atrium_ddns.Zone.{zone_contains}
use atrium_ddns.Store.{Tables, Domain, Hostname}
use atrium_ddns.Scope.{DdnsScope, get_hostname, select_hostnames, sees, hostname, owns_hostname}
use atrium_ddns.Api.Replies.{
  Database, replied, required-replied, refuse_if-replied, >>=-replied, replied-inj,
}
use atrium_ddns.Api.Rows.{remove_hostname}
use atrium_ddns.Api.Hostnames.{
  HostnameCreateIn, HostnameAssignIn, validated_hostname, new_hostname, target_name, assigned,
  create_hostname, assign_hostname, delete_hostname,
}
use atrium_ddns.Api.Sound.{IsHoused, IsSound}
use atrium_ddns.Api.Sound.Domains.{IsIn-map, IsIn-snoc}
use atrium_ddns.Api.Sound.Zones.{get_domain-IsIn}

-- A validated name lies in the zone that it was validated for.
pub validated_hostname-zone_contains :
    (raw zone : Text) {name : Text}
    → validated_hostname raw zone ≡ replied name
    → zone_contains zone name ≡ true
unfolding validated_hostname
validated_hostname-zone_contains raw zone {name} h =
    let (x1, e1, h1) = required-replied _ _ _ h in
    let (inside, h2) = refuse_if-replied _ _ _ h1 in
    let there : zone_contains zone x1 ≡ true = ground (arith, inside) in
    subst (λ n. zone_contains zone n ≡ true) (replied-inj h2) there

pub create_hostname-IsSound :
    (db : Database) (scope : DdnsScope) (id : ℕ) (body : HostnameCreateIn) (t : Tables)
    {h : Hostname} {t' : Tables}
    → create_hostname db scope id body t ≡ replied (h, t')
    → IsSound t
    → IsSound t'
unfolding create_hostname
create_hostname-IsSound db scope id body t {t' = t'} r (k, house) =
    let (d, e1, h1) = required-replied _ _ _ r in
    let (m, e, s) = get_domain-IsIn scope t body.domain_id d e1 in
    let (device, e2, h2) = >>=-replied _ _ h1 in
    let (name, e3, h3) = >>=-replied _ _ h2 in
    let (x4, h4) = refuse_if-replied _ _ _ h3 in
    let row = new_hostname id d.id device name in
    subst IsSound (ap (λ (p : Hostname × Tables). p.1) (replied-inj h4)) (
      k,
      (λ x mx. elim (IsIn-snoc t.hostnames row x mx) [
        | inl old ↦ house x old
        | inr new ↦
            subst (IsHoused t.domains) (sym new)
              (d, m, refl, validated_hostname-zone_contains body.name d.name e3)
      ]),
    )

get_hostname-IsIn :
    (scope : DdnsScope) (t : Tables) (id : ℕ) (h : Hostname)
    → get_hostname scope t id ≡ some h
    → IsIn h t.hostnames
unfolding get_hostname select_hostnames
get_hostname-IsIn scope t id h e =
    let (found, m) = find?-some (λ x. x.id == id) (select_hostnames scope t) {a = h} e in
    (filter-IsIn (λ x. sees scope hostname (owns_hostname t x)) t.hostnames {x = h} m).1

-- The name after an assignment lies in the zone after it.
target_name-zone_contains :
    (body : HostnameAssignIn) (t : Tables) (h : Hostname) (d : Domain) (new : Option Text)
    (moved : Option ℕ) {name : Text}
    → IsSound t
    → IsIn h t.hostnames
    → IsIn d t.domains
    → d.id ≡ or_default moved h.domain_id
    → target_name (record body { domain_id = moved; name = new }) h d.name ≡ replied name
    → zone_contains d.name name ≡ true
target_name-zone_contains body t h d (some n) moved sound mh md e r =
    validated_hostname-zone_contains n d.name r
target_name-zone_contains body t h d none (some id) sound mh md e r =
    validated_hostname-zone_contains h.name d.name r
target_name-zone_contains body t h d none none (k, house) mh md e r =
    let (z, mz, ez, kz) = house h mh in
    let same : z ≡ d = k z d mz md (ez ∙ sym e) in
    subst (λ n. zone_contains d.name n ≡ true) (replied-inj r)
      (subst (λ (x : Domain). zone_contains x.name h.name ≡ true) same kz)

pub assign_hostname-IsSound :
    (db : Database) (scope : DdnsScope) (id : ℕ) (body : HostnameAssignIn) (t : Tables)
    {h : Hostname} {t' : Tables}
    → assign_hostname db scope id body t ≡ replied (h, t')
    → IsSound t
    → IsSound t'
unfolding assign_hostname
assign_hostname-IsSound db scope id body t {t' = t'} r (k, house) =
    let (h, e0, h0) = required-replied _ _ _ r in
    let (device, e1, h1) = >>=-replied _ _ h0 in
    let (d, e2, h2) = required-replied _ _ _ h1 in
    let (m, e, s) = get_domain-IsIn scope t (or_default body.domain_id h.domain_id) d e2 in
    let (name, e3, h3) = >>=-replied _ _ h2 in
    let (x4, h4) = refuse_if-replied _ _ _ h3 in
    let inside =
      target_name-zone_contains body t h d body.name body.domain_id (k, house)
        (get_hostname-IsIn scope t id h e0) m e e3 in
    subst IsSound (ap (λ (p : Hostname × Tables). p.1) (replied-inj h4)) (
      k,
      (λ x mx.
          let (x0, m0, ex) =
            IsIn-map (λ (y : Hostname). if y.id == h.id then assigned d.id device name y else y)
              t.hostnames x mx in
          elim (Bool-cases (x0.id == h.id)) [
            | inl same ↦
                subst (IsHoused t.domains) (sym (ex ∙ if_true _ _ same)) (d, m, refl, inside)
            | inr other ↦ subst (IsHoused t.domains) (sym (ex ∙ if_false _ _ other)) (house x0 m0)
          ]),
    )

pub delete_hostname-IsSound :
    (scope : DdnsScope) (id : ℕ) (t : Tables) {t' : Tables}
    → delete_hostname scope id t ≡ replied t'
    → IsSound t
    → IsSound t'
unfolding delete_hostname remove_hostname
delete_hostname-IsSound scope id t r (k, house) =
    let (h, e, q) = required-replied _ _ _ r in
    subst IsSound (replied-inj q) (
      k,
      (λ x m. house x (filter-IsIn (λ (y : Hostname). not (y.id == id)) t.hostnames {x = x} m).1),
    )
