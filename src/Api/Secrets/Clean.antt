-- ===== src/Api/Secrets/Clean.antt =====
-- No operation of the interface stores a credential key in the clear.
use atrium_ddns.Prelude.{
  ℕ, ◌≡◌, inl, inr, sym, ap, ◌∙◌, subst, false, not, Option, none, some, [], ◌∷◌, ◌++◌, IsIn,
  filter-IsIn, find?-some, any, ◌==◌, Bool-cases, if_true, if_false, ◌&&◌, if◌then◌else◌,
}
use atrium_ddns.Text.{Text, text_eq}
use atrium_ddns.Dict.{keys}
use atrium_ddns.Store.{Tables, Domain, Backend}
use atrium_ddns.Scope.{DdnsScope, sees, backend, owns_backend}
use atrium_ddns.Api.Replies.{
  Database, replied, required-replied, refuse_if-replied, >>=-replied, >>-replied, replied-inj,
  Reply,
}
use atrium_ddns.Api.Rows.{
  get_backend, remove_domain, remove_backend, remove_hostname, remove_device,
}
use atrium_ddns.Api.Backends.{
  Shipped, BackendIn, BackendUpdateIn, bind_backend, create_backend, update_backend, delete_backend,
  is_secret_key,
}
use atrium_ddns.Api.Zones.{create_domain, rename_domain, delete_domain, bind_first, normalise_zone}
use atrium_ddns.Api.Hostnames.{create_hostname, assign_hostname, delete_hostname}
use atrium_ddns.Api.Devices.{create_device, rotate_device_secret, update_device, delete_device}
use atrium_ddns.Api.Publishing.{load_publishing, set_hostname_publishing}
use atrium_ddns.Api.Adopt.{adopt_zone}
use atrium_ddns.Api.Sound.Domains.{IsIn-map, IsIn-snoc}
use atrium_ddns.Api.Sound.Steps.{
  Step, Steps, stays, goes, creates_domain, renames_domain, deletes_domain, creates_backend,
  updates_backend, deletes_backend, creates_hostname, assigns_hostname, deletes_hostname,
  creates_device, rotates_secret, updates_device, deletes_device, chooses_backends, adopts_zone,
}
use atrium_ddns.Api.Secrets.{IsClean, coerced-IsStored, config_checked, update_backend-IsStored}

-- Every binding of the table is clean.
abbrev pub AllClean : Shipped → Tables → Type 0
AllClean shipped t = (b : Backend) → IsIn b t.backends → IsClean shipped b

-- The tables of a reply with a row.
reply-AllClean :
    {A : Type 0} (shipped : Shipped) {a b : A} {t' u : Tables}
    → AllClean shipped u
    → ◌≡◌ {A = Reply (A × Tables)} (replied (a, u)) (replied (b, t'))
    → AllClean shipped t'
reply-AllClean {A} shipped s h =
    subst (AllClean shipped) (ap (λ (p : A × Tables). p.1) (replied-inj h)) s

bind_backend-AllClean :
    (db : Database) (shipped : Shipped) (id : ℕ) (d : Domain) (body : BackendIn) (t : Tables)
    {b : Backend} {t' : Tables}
    → bind_backend db shipped id d body t ≡ replied (b, t')
    → AllClean shipped t
    → AllClean shipped t'
unfolding bind_backend
bind_backend-AllClean db shipped id d body t h s =
    let (x1, h1) = refuse_if-replied _ _ _ h in
    let (x2, e2, h2) = >>-replied _ _ h1 in
    let (c, e3, h3) = >>=-replied _ _ h2 in
    let (x4, e4, h4) = >>-replied _ _ h3 in
    let (x5, h5) = refuse_if-replied _ _ _ h4 in
    let (b2, e6, h6) = >>=-replied _ _ h5 in
    let base : Backend = record {
      id = id;
      domain_id = d.id;
      user_id = d.user_id;
      backend_type = body.backend_type;
      config = body.config;
      credentials_ct = none;
    } in
    let (st, cfg, uid, same_id) = coerced-IsStored db base body.credentials c b2 e3 e6 in
    reply-AllClean shipped
      (λ x m. elim (IsIn-snoc t.backends b2 x m) [
        | inl old ↦ s x old
        | inr new ↦ subst (IsClean shipped) (sym new) (
            subst (λ y. any (is_secret_key shipped) (keys y) ≡ false) (sym cfg)
              (config_checked shipped body.config e2))
      ])
      h6

bind_first-AllClean :
    (db : Database) (shipped : Shipped) (id : ℕ) (d : Domain) (body : Option BackendIn) (t : Tables)
    {d' : Domain} {t' : Tables}
    → bind_first db shipped id d body t ≡ replied (d', t')
    → AllClean shipped t
    → AllClean shipped t'
bind_first-AllClean db shipped id d none t h s = reply-AllClean shipped s h
bind_first-AllClean db shipped id d (some body) t h s =
    let ((b, t1), e, r) = >>=-replied (bind_backend db shipped id d body t) _ h in
    reply-AllClean shipped (bind_backend-AllClean db shipped id d body t e s) r

create_domain-AllClean :
    (db : Database) (shipped : Shipped) (scope : DdnsScope) (id backend_id : ℕ) (name : Text)
    (body : Option BackendIn) (t : Tables) {d : Domain} {t' : Tables}
    → create_domain db shipped scope id backend_id name body t ≡ replied (d, t')
    → AllClean shipped t
    → AllClean shipped t'
unfolding create_domain
create_domain-AllClean db shipped scope id backend_id name body t h s =
    let (user_id, e1, h1) = required-replied _ _ _ h in
    let (x2, h2) = refuse_if-replied _ _ _ h1 in
    let (x3, h3) = refuse_if-replied _ _ _ h2 in
    let row : Domain = record { id = id; user_id = user_id; name = normalise_zone name } in
    bind_first-AllClean db shipped backend_id row body
      (record t { domains = t.domains ++ row ∷ [] }) h3 s

rename_domain-AllClean :
    (db : Database) (shipped : Shipped) (scope : DdnsScope) (id : ℕ) (name : Text) (t : Tables)
    {d : Domain} {t' : Tables}
    → rename_domain db scope id name t ≡ replied (d, t')
    → AllClean shipped t
    → AllClean shipped t'
unfolding rename_domain
rename_domain-AllClean db shipped scope id name t h s =
    let (d0, found, h1) = required-replied _ _ _ h in
    let (x2, h2) = refuse_if-replied _ _ _ h1 in
    elim (Bool-cases (text_eq (normalise_zone name) d0.name)) [
      | inl same ↦ reply-AllClean shipped s (rw same at h2)
      | inr other ↦
          let (x3, h3) = refuse_if-replied _ _ _ (rw other at h2) in
          let (x4, h4) = refuse_if-replied _ _ _ h3 in reply-AllClean shipped s h4
    ]

update_backend-AllClean :
    (db : Database) (shipped : Shipped) (scope : DdnsScope) (id : ℕ) (body : BackendUpdateIn)
    (t : Tables) {b' : Backend} {t' : Tables}
    → update_backend db shipped scope id body t ≡ replied (b', t')
    → AllClean shipped t
    → AllClean shipped t'
unfolding update_backend get_backend
update_backend-AllClean db shipped scope id body t {b'} {t'} h s =
    let (b, found, (stored, owner, same_id, configured), replaced) =
      update_backend-IsStored db shipped scope id body t h in
    let (passes, m) =
      find?-some (λ x. x.id == id && sees scope backend (owns_backend x)) t.backends {a = b}
        found in
    let clean : IsClean shipped b' = elim configured [
      | inl (e, same) ↦ subst (λ y. any (is_secret_key shipped) (keys y) ≡ false) (sym same) (s b m)
      | inr (e, k) ↦ k
    ] in
    let (b1, e1, h1) = required-replied _ _ _ h in
    let (x2, e2, h2) = >>-replied _ _ h1 in
    let (c, e3, h3) = >>=-replied _ _ h2 in
    let (x4, e4, h4) = >>-replied _ _ h3 in
    let (b2, e5, h5) = >>=-replied _ _ h4 in
    let same : b2 ≡ b' = ap (λ (p : Backend × Tables). p.0) (replied-inj h5) in
    reply-AllClean shipped
      (λ x mx.
        let (x0, m0, ex) =
          IsIn-map (λ (y : Backend). if y.id == id then b2 else y) t.backends x mx in
        elim (Bool-cases (x0.id == id)) [
          | inl hit ↦ subst (IsClean shipped) (sym (ex ∙ if_true _ _ hit ∙ same)) clean
          | inr miss ↦ subst (IsClean shipped) (sym (ex ∙ if_false _ _ miss)) (s x0 m0)
        ])
      h5

Step-AllClean :
    (db : Database) (shipped : Shipped) (t t' : Tables)
    → Step db shipped t t'
    → AllClean shipped t
    → AllClean shipped t'
unfolding set_hostname_publishing adopt_zone create_backend delete_domain delete_backend
    create_hostname assign_hostname delete_hostname create_device rotate_device_secret update_device
    delete_device remove_domain remove_backend remove_hostname remove_device
Step-AllClean db shipped t t' (creates_domain scope id backend_id name body d fresh h) s =
    create_domain-AllClean db shipped scope id backend_id name body t h s
Step-AllClean db shipped t t' (renames_domain scope id name d h) s =
    rename_domain-AllClean db shipped scope id name t h s
Step-AllClean db shipped t t' (deletes_domain scope id h) s =
    let (d, e, r) = required-replied _ _ _ h in
    subst (AllClean shipped) (replied-inj r)
      (λ b m. s b (filter-IsIn (λ (x : Backend). not (x.domain_id == id)) t.backends {x = b} m).1)
Step-AllClean db shipped t t' (creates_backend scope id domain_id body b h) s =
    let (d, e, r) = required-replied _ _ _ h in bind_backend-AllClean db shipped id d body t r s
Step-AllClean db shipped t t' (updates_backend scope id body b h) s =
    update_backend-AllClean db shipped scope id body t h s
Step-AllClean db shipped t t' (deletes_backend scope id h) s =
    let (b, e, r) = required-replied _ _ _ h in
    subst (AllClean shipped) (replied-inj r)
      (λ x m. s x (filter-IsIn (λ (y : Backend). not (y.id == id)) t.backends {x = x} m).1)
Step-AllClean db shipped t t' (creates_hostname scope id body h r) s =
    let (d, e1, h1) = required-replied _ _ _ r in
    let (device, e2, h2) = >>=-replied _ _ h1 in
    let (name, e3, h3) = >>=-replied _ _ h2 in
    let (x4, h4) = refuse_if-replied _ _ _ h3 in reply-AllClean shipped s h4
Step-AllClean db shipped t t' (assigns_hostname scope id body h r) s =
    let (h, e0, h0) = required-replied _ _ _ r in
    let (device, e1, h1) = >>=-replied _ _ h0 in
    let (d, e2, h2) = required-replied _ _ _ h1 in
    let (name, e3, h3) = >>=-replied _ _ h2 in
    let (x4, h4) = refuse_if-replied _ _ _ h3 in reply-AllClean shipped s h4
Step-AllClean db shipped t t' (deletes_hostname scope id h) s =
    let (x, e, r) = required-replied _ _ _ h in subst (AllClean shipped) (replied-inj r) s
Step-AllClean db shipped t t' (creates_device scope id issued name limit d h) s =
    let (x1, e1, h1) = >>=-replied _ _ h in
    let (x2, e2, h2) = required-replied _ _ _ h1 in
    let (x3, h3) = refuse_if-replied _ _ _ h2 in
    let (x4, h4) = refuse_if-replied _ _ _ h3 in reply-AllClean shipped s h4
Step-AllClean db shipped t t' (rotates_secret scope id issued d h) s =
    let (x, e, r) = required-replied _ _ _ h in reply-AllClean shipped s r
Step-AllClean db shipped t t' (updates_device scope id body d h) s =
    let (x1, e1, h1) = >>=-replied _ _ h in
    let (x2, e2, h2) = required-replied _ _ _ h1 in
    let (x3, h3) = refuse_if-replied _ _ _ h2 in reply-AllClean shipped s h3
Step-AllClean db shipped t t' (deletes_device scope id h) s =
    let (x, e, r) = required-replied _ _ _ h in subst (AllClean shipped) (replied-inj r) s
Step-AllClean db shipped t t' (chooses_backends scope id body out h) s =
    let (x1, h1) = refuse_if-replied _ _ _ h in
    let (p, loaded, h2) = >>=-replied (load_publishing scope t id) _ h1 in
    let (x3, h3) = refuse_if-replied _ _ _ h2 in
    let (again, reloaded, h4) = >>=-replied _ _ h3 in reply-AllClean shipped s h4
Step-AllClean db shipped t t' (adopts_zone repr logged scope id x h) s =
    let (p, loaded, h1) = >>=-replied (load_publishing scope t id) _ h in
    let (x2, h2) = refuse_if-replied _ _ _ h1 in
    let (x3, h3) = refuse_if-replied _ _ _ h2 in reply-AllClean shipped s h3

-- Whatever operations of the interface, manual updates aside, follow each other, by whatever callers:
-- if at first no stored config has a credential key of a registered class, then none has one at the
-- end.
pub Steps-AllClean :
    (db : Database) (shipped : Shipped) (t t' : Tables)
    → Steps db shipped t t'
    → AllClean shipped t
    → AllClean shipped t'
Steps-AllClean db shipped t t' stays s = s
Steps-AllClean db shipped t t' (goes {t' = u} step rest) s =
    Steps-AllClean db shipped u t' rest (Step-AllClean db shipped t u step s)
