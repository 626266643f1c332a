-- ===== src/Api/Devices.antt =====
-- The devices: issuing, rotating, changing and deleting one (backend/src/atrium_ddns/router.py).
use atrium_ddns.Prelude.{
  ℕ, Bool, ◌&&◌, not, Option, none, some, [], ◌∷◌, ◌++◌, map, any, ◌==◌, if◌then◌else◌, or_default,
}
use atrium_ddns.Prelude.Int.{ℤ}
use atrium_ddns.Text.{Text, strip, is_empty, text_eq}
use atrium_ddns.Store.{Tables, Device}
use atrium_ddns.Scope.{DdnsScope}
use atrium_ddns.Api.Replies.{
  forbidden, not_found, conflict, unprocessable, Reply, replied, ◌>>=◌, ◌>>◌, required, refuse_if,
  Database,
}
use atrium_ddns.Api.Rows.{get_device, remove_device}

-- `_clean_device_name`, of a text.
unfoldable pub clean_device_name : Text → Reply Text
clean_device_name value = do refuse_if unprocessable (is_empty (strip value)); replied (strip value)

-- What the process draws at random, and the hash of the secret.
pub record Issued : Type 0 where
  pub username : Text
  pub secret : Text
  pub password_hash : Text

-- The two unique indexes: the user names, and the names of one user's devices.
abbrev pub has_device_named : Database → Tables → ℕ → Text → Bool
has_device_named db t user_id name =
    any (λ d. d.user_id == user_id && db.same_text d.name name) t.devices

abbrev pub has_username : Database → Tables → Text → Bool
has_username db t username = any (λ d. db.same_text d.username username) t.devices

abbrev new_device : ℕ → ℕ → Issued → Text → Option ℤ → Device
new_device id user_id issued name limit = record {
  id = id;
  user_id = user_id;
  username = issued.username;
  password_hash = issued.password_hash;
  name = name;
  last_seen_at = none;
  last_ip_v4 = none;
  last_ip_v6 = none;
  last_user_agent = none;
  rate_limit_per_minute = limit;
}

-- The device and the secret, which is shown once.
unfoldable pub create_device :
    Database → DdnsScope → ℕ → Issued → Text → Option ℤ → Tables → Reply ((Device × Text) × Tables)
unfolding clean_device_name
create_device db scope id issued body_name limit t = do
  name ← clean_device_name body_name
  user_id ← required forbidden scope.user_id
  refuse_if conflict (has_username db t issued.username)
  refuse_if conflict (has_device_named db t user_id name)
  let d = new_device id user_id issued name limit
  replied ((d, issued.secret), record t { devices = t.devices ++ d ∷ [] })

abbrev pub change_row : ℕ → (Device → Device) → Tables → Tables
change_row id f t = record t { devices = map (λ d. if d.id == id then f d else d) t.devices }

abbrev pub with_hash : Text → Device → Device
with_hash hash d = record d { password_hash = hash }

unfoldable pub rotate_device_secret :
    DdnsScope → ℕ → Issued → Tables → Reply ((Device × Text) × Tables)
unfolding get_device
rotate_device_secret scope id issued t = do
  d ← required not_found (get_device scope t id)
  replied (
    (with_hash issued.password_hash d, issued.secret),
    change_row d.id (with_hash issued.password_hash) t,
  )

-- The body of a change, its limit at least 0: the limit is always set, a name that is left out is kept.
pub record DeviceUpdateIn : Type 0 where
  pub rate_limit_per_minute : Option ℤ
  pub name : Option Text

abbrev clean_optional : Option Text → Reply (Option Text)
clean_optional none = replied none
clean_optional (some name) = do cleaned ← clean_device_name name; replied (some cleaned)

abbrev pub with_settings : Option ℤ → Text → Device → Device
with_settings limit name d = record d { rate_limit_per_minute = limit; name = name }

-- The unique name, of another device of the same user.
abbrev named_by_other : Database → Tables → Device → Text → Bool
named_by_other db t d name =
    any (λ x. not (x.id == d.id) && x.user_id == d.user_id && db.same_text x.name name) t.devices

unfoldable pub update_device :
    Database → DdnsScope → ℕ → DeviceUpdateIn → Tables → Reply (Device × Tables)
unfolding clean_device_name get_device
update_device db scope id body t = do
  name ← clean_optional body.name
  d ← required not_found (get_device scope t id)
  let name' = or_default name d.name
  refuse_if conflict (not (text_eq name' d.name) && named_by_other db t d name')
  replied (
    with_settings body.rate_limit_per_minute name' d,
    change_row d.id (with_settings body.rate_limit_per_minute name') t,
  )

unfoldable pub delete_device : DdnsScope → ℕ → Tables → Reply Tables
unfolding get_device remove_device
delete_device scope id t = do
  d ← required not_found (get_device scope t id)
  replied (remove_device id t)
