-- ===== src/Api/Sound/Steps.antt =====
-- Every operation of the interface that changes a row, as a step, manual updates aside; the ids are those
-- that the database gives to new rows.
use atrium_ddns.Prelude.{ℕ, ◌≡◌, Option}
use atrium_ddns.Prelude.Int.{ℤ}
use atrium_ddns.Text.{Text}
use atrium_ddns.Store.{Tables, Domain, Backend, Device, Hostname, Instant}
use atrium_ddns.Scope.{DdnsScope}
use atrium_ddns.Api.Replies.{Database, replied}
use atrium_ddns.Api.Backends.{
  Shipped, BackendIn, BackendUpdateIn, create_backend, update_backend, delete_backend,
}
use atrium_ddns.Api.Zones.{create_domain, rename_domain, delete_domain}
use atrium_ddns.Api.Hostnames.{
  HostnameCreateIn, HostnameAssignIn, create_hostname, assign_hostname, delete_hostname,
}
use atrium_ddns.Api.Devices.{
  Issued, DeviceUpdateIn, create_device, rotate_device_secret, update_device, delete_device,
}
use atrium_ddns.Api.Publishing.{
  HostnamePublishingIn, HostnamePublishingOut, set_hostname_publishing,
}
use atrium_ddns.Api.Adopt.{adopt_zone}
use atrium_ddns.Api.Sound.Domains.{IsFreshId}

pub data Step (db : Database) (shipped : Shipped) (t : Tables) : Tables → Type 0 where
  creates_domain :
      {t' : Tables} (scope : DdnsScope) (id backend_id : ℕ) (name : Text)
      (backend : Option BackendIn) (d : Domain)
      → IsFreshId id t.domains
      → create_domain db shipped scope id backend_id name backend t ≡ replied (d, t')
      → Step db shipped t t'
  renames_domain :
      {t' : Tables} (scope : DdnsScope) (id : ℕ) (name : Text) (d : Domain)
      → rename_domain db scope id name t ≡ replied (d, t')
      → Step db shipped t t'
  deletes_domain :
      {t' : Tables} (scope : DdnsScope) (id : ℕ)
      → delete_domain scope id t ≡ replied t'
      → Step db shipped t t'
  creates_backend :
      {t' : Tables} (scope : DdnsScope) (id domain_id : ℕ) (body : BackendIn) (b : Backend)
      → create_backend db shipped scope id domain_id body t ≡ replied (b, t')
      → Step db shipped t t'
  updates_backend :
      {t' : Tables} (scope : DdnsScope) (id : ℕ) (body : BackendUpdateIn) (b : Backend)
      → update_backend db shipped scope id body t ≡ replied (b, t')
      → Step db shipped t t'
  deletes_backend :
      {t' : Tables} (scope : DdnsScope) (id : ℕ)
      → delete_backend scope id t ≡ replied t'
      → Step db shipped t t'
  creates_hostname :
      {t' : Tables} (scope : DdnsScope) (id : ℕ) (body : HostnameCreateIn) (h : Hostname)
      → create_hostname db scope id body t ≡ replied (h, t')
      → Step db shipped t t'
  assigns_hostname :
      {t' : Tables} (scope : DdnsScope) (id : ℕ) (body : HostnameAssignIn) (h : Hostname)
      → assign_hostname db scope id body t ≡ replied (h, t')
      → Step db shipped t t'
  deletes_hostname :
      {t' : Tables} (scope : DdnsScope) (id : ℕ)
      → delete_hostname scope id t ≡ replied t'
      → Step db shipped t t'
  creates_device :
      {t' : Tables} (scope : DdnsScope) (id : ℕ) (issued : Issued) (name : Text) (limit : Option ℤ)
      (d : Device × Text)
      → create_device db scope id issued name limit t ≡ replied (d, t')
      → Step db shipped t t'
  rotates_secret :
      {t' : Tables} (scope : DdnsScope) (id : ℕ) (issued : Issued) (d : Device × Text)
      → rotate_device_secret scope id issued t ≡ replied (d, t')
      → Step db shipped t t'
  updates_device :
      {t' : Tables} (scope : DdnsScope) (id : ℕ) (body : DeviceUpdateIn) (d : Device)
      → update_device db scope id body t ≡ replied (d, t')
      → Step db shipped t t'
  deletes_device :
      {t' : Tables} (scope : DdnsScope) (id : ℕ)
      → delete_device scope id t ≡ replied t'
      → Step db shipped t t'
  chooses_backends :
      {t' : Tables} (scope : DdnsScope) (id : ℕ) (body : HostnamePublishingIn)
      (out : HostnamePublishingOut)
      → set_hostname_publishing scope id body t ≡ replied (out, t')
      → Step db shipped t t'
  adopts_zone :
      {t' : Tables} (repr : Option Text → Text) (logged : ℕ → Instant) (scope : DdnsScope) (id : ℕ)
      (h : Hostname)
      → adopt_zone repr logged scope id t ≡ replied (h, t')
      → Step db shipped t t'

-- Any number of steps.
pub data Steps (db : Database) (shipped : Shipped) : Tables → Tables → Type 0 where
  stays : {t : Tables} → Steps db shipped t t
  goes :
      {t t' t'' : Tables} → Step db shipped t t' → Steps db shipped t' t'' → Steps db shipped t t''
