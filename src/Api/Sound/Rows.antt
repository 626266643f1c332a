-- ===== src/Api/Sound/Rows.antt =====
-- The operations on bindings and devices leave zones and names where they are.
use atrium_ddns.Prelude.{ℕ, ◌≡◌, refl, sym, ap, subst, Option, IsIn}
use atrium_ddns.Text.{Text}
use atrium_ddns.Prelude.Int.{ℤ}
use atrium_ddns.Store.{Tables, Domain, Backend, Device}
use atrium_ddns.Scope.{DdnsScope}
use atrium_ddns.Api.Replies.{
  Database, Reply, replied, required-replied, refuse_if-replied, >>=-replied, >>-replied,
  replied-inj,
}
use atrium_ddns.Api.Backends.{
  Shipped, BackendIn, BackendUpdateIn, bind_backend, create_backend, update_backend, delete_backend,
}
use atrium_ddns.Api.Devices.{
  Issued, DeviceUpdateIn, create_device, rotate_device_secret, update_device, delete_device,
}
use atrium_ddns.Api.Rows.{remove_device, remove_backend, unassign}
use atrium_ddns.Api.Sound.{IsKeyed, IsHoused, IsSound, Text}
use atrium_ddns.Api.Sound.Domains.{IsIn-map}

abbrev pub SameNames : Tables → Tables → Type 0
SameNames t t' = (t'.domains ≡ t.domains) × (t'.hostnames ≡ t.hostnames)

pub SameNames-IsSound : (t t' : Tables) → SameNames t t' → IsSound t → IsSound t'
SameNames-IsSound t t' (e, f) (k, house) = (
  subst IsKeyed (sym e) k,
  (λ h m. subst (λ ds. IsHoused ds h) (sym e) (house h (subst (IsIn h) f m))),
)

-- The tables of a reply.
module _ {A : Type 0} where
  pub reply-SameNames :
      (t : Tables) {a b : A} {t' u : Tables}
      → SameNames t u
      → ◌≡◌ {A = Reply (A × Tables)} (replied (a, u)) (replied (b, t'))
      → SameNames t t'
  reply-SameNames t s h = subst (SameNames t) (ap (λ (p : A × Tables). p.1) (replied-inj h)) s

pub bind_backend-SameNames :
    (db : Database) (shipped : Shipped) (id : ℕ) (d : Domain) (body : BackendIn) (t : Tables)
    {b : Backend} {t' : Tables}
    → bind_backend db shipped id d body t ≡ replied (b, t')
    → SameNames t t'
unfolding bind_backend
bind_backend-SameNames db shipped id d body t h =
    let (x1, h1) = refuse_if-replied _ _ _ h in
    let (x2, e2, h2) = >>-replied _ _ h1 in
    let (x3, e3, h3) = >>=-replied _ _ h2 in
    let (x4, e4, h4) = >>-replied _ _ h3 in
    let (x5, h5) = refuse_if-replied _ _ _ h4 in
    let (x6, e6, h6) = >>=-replied _ _ h5 in reply-SameNames t (refl, refl) h6

pub create_backend-SameNames :
    (db : Database) (shipped : Shipped) (scope : DdnsScope) (id domain_id : ℕ) (body : BackendIn)
    (t : Tables) {b : Backend} {t' : Tables}
    → create_backend db shipped scope id domain_id body t ≡ replied (b, t')
    → SameNames t t'
unfolding create_backend
create_backend-SameNames db shipped scope id domain_id body t h =
    let (d, e, k) = required-replied _ _ _ h in bind_backend-SameNames db shipped id d body t k

pub update_backend-SameNames :
    (db : Database) (shipped : Shipped) (scope : DdnsScope) (id : ℕ) (body : BackendUpdateIn)
    (t : Tables) {b : Backend} {t' : Tables}
    → update_backend db shipped scope id body t ≡ replied (b, t')
    → SameNames t t'
unfolding update_backend
update_backend-SameNames db shipped scope id body t h =
    let (b, e1, h1) = required-replied _ _ _ h in
    let (x2, e2, h2) = >>-replied _ _ h1 in
    let (x3, e3, h3) = >>=-replied _ _ h2 in
    let (x4, e4, h4) = >>-replied _ _ h3 in
    let (x5, e5, h5) = >>=-replied _ _ h4 in reply-SameNames t (refl, refl) h5

pub delete_backend-SameNames :
    (scope : DdnsScope) (id : ℕ) (t : Tables) {t' : Tables}
    → delete_backend scope id t ≡ replied t'
    → SameNames t t'
unfolding delete_backend remove_backend
delete_backend-SameNames scope id t h =
    let (b, e, k) = required-replied _ _ _ h in subst (SameNames t) (replied-inj k) (refl, refl)

pub create_device-SameNames :
    (db : Database) (scope : DdnsScope) (id : ℕ) (issued : Issued) (name : Text) (limit : Option ℤ)
    (t : Tables) {d : Device × Text} {t' : Tables}
    → create_device db scope id issued name limit t ≡ replied (d, t')
    → SameNames t t'
unfolding create_device
create_device-SameNames db scope id issued name limit t h =
    let (x1, e1, h1) = >>=-replied _ _ h in
    let (x2, e2, h2) = required-replied _ _ _ h1 in
    let (x3, h3) = refuse_if-replied _ _ _ h2 in
    let (x4, h4) = refuse_if-replied _ _ _ h3 in reply-SameNames t (refl, refl) h4

pub rotate_device_secret-SameNames :
    (scope : DdnsScope) (id : ℕ) (issued : Issued) (t : Tables) {d : Device × Text} {t' : Tables}
    → rotate_device_secret scope id issued t ≡ replied (d, t')
    → SameNames t t'
unfolding rotate_device_secret
rotate_device_secret-SameNames scope id issued t h =
    let (d, e, k) = required-replied _ _ _ h in reply-SameNames t (refl, refl) k

pub update_device-SameNames :
    (db : Database) (scope : DdnsScope) (id : ℕ) (body : DeviceUpdateIn) (t : Tables) {d : Device}
    {t' : Tables}
    → update_device db scope id body t ≡ replied (d, t')
    → SameNames t t'
unfolding update_device
update_device-SameNames db scope id body t h =
    let (x1, e1, h1) = >>=-replied _ _ h in
    let (x2, e2, h2) = required-replied _ _ _ h1 in
    let (x3, h3) = refuse_if-replied _ _ _ h2 in reply-SameNames t (refl, refl) h3

-- A device's names stay, unassigned.
pub delete_device-IsSound :
    (scope : DdnsScope) (id : ℕ) (t : Tables) {t' : Tables}
    → delete_device scope id t ≡ replied t'
    → IsSound t
    → IsSound t'
unfolding delete_device remove_device
delete_device-IsSound scope id t h (k, house) =
    let (d, e, r) = required-replied _ _ _ h in
    subst IsSound (replied-inj r) (
      k,
      (λ x m.
          let (x0, m0, e0) = IsIn-map (unassign id) t.hostnames x m in
          let (z, mz, ez, kz) = house x0 m0 in subst (IsHoused t.domains) (sym e0) (z, mz, ez, kz)),
    )
