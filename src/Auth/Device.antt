-- ===== src/Auth/Device.antt =====
-- `authenticate_device`.
pub mod Attribution
use atrium_ddns.Prelude.{
  ℕ, Bool, true, false, not, ◌||◌, Option, none, some, ◌==◌, find?, is_some, ◌>>=◌, if◌then◌else◌,
}
use atrium_ddns.Text.{Text, is_empty}
use atrium_ddns.Store.{Tables, User, Device, change_device}
use atrium_ddns.Scope.{DdnsScope, for_user_id}
use atrium_ddns.Auth.Header.{BasicCredentials}
use atrium_ddns.Auth.Password.{Hasher, verify_password}

-- `AUTH_FAILED_*`.
pub data Reason : Type 0 where
  absent unknown_username bad_password inactive_owner : Reason

pub record FailedAuth : Type 0 where
  pub reason : Reason
  pub device : Option Device
  pub user_id : Option ℕ
  pub user_email : Option Text

-- `FailedAuth.attributable`.
abbrev pub attributable : FailedAuth → Bool
attributable f = is_some f.user_id

pub record DeviceAuth : Type 0 where
  pub device : Device
  pub user_id : ℕ
  pub user_email : Text

-- `DeviceAuth.scope`.
abbrev pub scope : DeviceAuth → DdnsScope
scope auth = for_user_id auth.user_id

pub data AuthResult : Type 0 where
  verified : DeviceAuth → AuthResult
  failed : FailedAuth → AuthResult

abbrev unattributed : Reason → AuthResult
unattributed reason =
    failed (record { reason = reason; device = none; user_id = none; user_email = none })

abbrev attributed : Reason → Device → User → AuthResult
attributed reason device user = failed (record {
  reason = reason;
  device = some device;
  user_id = some user.id;
  user_email = some user.email;
})

-- The device of a username joined with its owner. Usernames and user ids are unique; `same_text` is how the
-- database compares usernames.
abbrev pub device_with_owner : (Text → Text → Bool) → Tables → Text → Option (Device × User)
device_with_owner same_text t username = do
  device ← find? (λ d. same_text d.username username) t.devices
  user ← find? (λ u. u.id == device.user_id) t.users
  some (device, user)

abbrev rehashed : Device → Option Text → Device
rehashed device none = device
rehashed device (some hash) = record device { password_hash = hash }

abbrev with_rehash : Tables → Device → Option Text → Tables
with_rehash t device none = t
with_rehash t device (some hash) = record t {
  devices = change_device device.id (λ d. rehashed d (some hash)) t.devices;
}

abbrev judge : Tables → Device → User → Bool × Option Text → AuthResult × Tables
judge t device user (false, upgraded) = (attributed bad_password device user, t)
judge t device user (true, upgraded) =
    let t' = with_rehash t device upgraded in
    if not user.is_active
    then (attributed inactive_owner (rehashed device upgraded) user, t')
    else (
      verified (record {
        device = rehashed device upgraded;
        user_id = user.id;
        user_email = user.email;
      }),
      t',
    )

abbrev decide_row : Hasher → Text → Tables → Option (Device × User) → AuthResult × Tables
decide_row hasher password t none = (unattributed unknown_username, t)
decide_row hasher password t (some (device, user)) =
    judge t device user (verify_password hasher device.password_hash password)

-- The dummy verification of an unknown username changes nothing but the time taken.
unfoldable pub authenticate_device :
    (Text → Text → Bool) → Hasher → Tables → Option BasicCredentials → AuthResult × Tables
authenticate_device same_text hasher t none = (unattributed absent, t)
authenticate_device same_text hasher t (some credentials) =
    if is_empty credentials.username || is_empty credentials.password
    then (unattributed absent, t)
    else decide_row hasher credentials.password t
        (device_with_owner same_text t credentials.username)
