-- ===== src/Api/Backends.antt =====
-- The bindings of a zone to providers, and the rule of the credentials that are left blank
-- (backend/src/atrium_ddns/router.py).
use atrium_ddns.Prelude.{
  ℕ, Bool, true, ◌&&◌, not, Option, none, some, List, [], ◌∷◌, ◌++◌, map, any, ◌==◌, if◌then◌else◌,
  is_some,
}
use atrium_ddns.Text.{Text, contains, is_empty, strip}
use atrium_ddns.Dict.{Dict, keys}
use atrium_ddns.Store.{Tables, Domain, Backend}
use atrium_ddns.Scope.{DdnsScope}
use atrium_ddns.Provider.Account.{Json, str}
use atrium_ddns.Provider.Adapter.{Adapter}
use atrium_ddns.Provider.Registry.{Registry, provider_class}
use atrium_ddns.Api.Replies.{
  not_found, conflict, unprocessable, unavailable, Reply, refused, replied, ◌>>=◌, ◌>>◌, required,
  refuse_if, Database,
}
use atrium_ddns.Api.Rows.{get_domain, get_backend, remove_backend}

-- The classes that are registered, with their `REQUIRED_CREDENTIALS`.
pub record Shipped : Type 0 where
  pub registry : Registry
  pub required_credentials : Adapter → List Text

-- `_credential_keys`.
abbrev keys_of_class : Shipped → Option Adapter → List Text
keys_of_class shipped none = []
keys_of_class shipped (some adapter) = shipped.required_credentials adapter

unfoldable pub credential_keys : Shipped → Text → List Text
credential_keys shipped backend_type =
    keys_of_class shipped (provider_class shipped.registry backend_type)

-- Whether a key is in `_all_secret_keys`: one of any registered class.
unfoldable pub is_secret_key : Shipped → Text → Bool
is_secret_key shipped key =
    any (λ entry. contains (shipped.required_credentials entry.1) key) shipped.registry

-- `_reject_secrets_in_config`.
unfoldable pub reject_secrets_in_config : Shipped → Dict Json → Reply Bool
unfolding is_secret_key
reject_secrets_in_config shipped config =
    refuse_if unprocessable (any (is_secret_key shipped) (keys config))

-- The field as it arrives: left out or "", null, an object, or anything else.
pub data CredentialsField : Type 0 where
  blank cleared malformed : CredentialsField
  object : Dict Json → CredentialsField

pub data Credentials : Type 0 where
  preserve clear : Credentials
  replace : Dict Text → Credentials

-- A text for every key, none of them blank.
abbrev put_text : Text → Json → Option (Dict Text) → Option (Dict Text)
put_text k (str s) (some d) = if is_empty (strip s) then none else some ((k, s) ∷ d)
put_text k _ _ = none

unfoldable pub texts_of : Dict Json → Option (Dict Text)
texts_of [] = some []
texts_of ((k, v) ∷ d) = put_text k v (texts_of d)

abbrev replaced : Option (Dict Text) → Reply Credentials
replaced none = refused unprocessable
replaced (some d) = replied (replace d)

-- `_coerce_credentials`.
unfoldable pub coerce_credentials : CredentialsField → Reply Credentials
unfolding texts_of
coerce_credentials blank = replied preserve
coerce_credentials cleared = replied clear
coerce_credentials malformed = refused unprocessable
coerce_credentials (object []) = refused unprocessable
coerce_credentials (object (entry ∷ d)) = replaced (texts_of (entry ∷ d))

-- `_require_complete_credentials`, which only a replacement has to pass.
unfoldable pub require_complete_credentials : Shipped → Text → Credentials → Reply Bool
unfolding credential_keys
require_complete_credentials shipped backend_type (replace d) =
    refuse_if unprocessable
      (any (λ key. not (contains (keys d) key)) (credential_keys shipped backend_type))
require_complete_credentials shipped backend_type _ = replied true

-- `_apply_credentials`: under the key of the row's owner.
unfoldable pub apply_credentials : Database → Backend → Credentials → Reply Backend
apply_credentials db b preserve = replied b
apply_credentials db b clear = replied (record b { credentials_ct = none })
apply_credentials db b (replace d) = do
  ciphertext ← required unavailable (db.encrypt b.user_id d)
  replied (record b { credentials_ct = some ciphertext })

pub record BackendIn : Type 0 where
  pub backend_type : Text
  pub config : Dict Json
  pub credentials : CredentialsField

-- The unique pair of a zone and a type.
abbrev is_bound : Database → Tables → ℕ → Text → Bool
is_bound db t domain_id backend_type =
    any (λ b. b.domain_id == domain_id && db.same_text b.backend_type backend_type) t.backends

-- `_bind_backend`: the owner is the zone's. The database gives the id.
unfoldable pub bind_backend :
    Database → Shipped → ℕ → Domain → BackendIn → Tables → Reply (Backend × Tables)
unfolding reject_secrets_in_config coerce_credentials require_complete_credentials apply_credentials
bind_backend db shipped id d body t = do
  refuse_if unprocessable (not (is_some (provider_class shipped.registry body.backend_type)))
  reject_secrets_in_config shipped body.config
  credentials ← coerce_credentials body.credentials
  require_complete_credentials shipped body.backend_type credentials
  refuse_if conflict (is_bound db t d.id body.backend_type)
  b ←
      apply_credentials db
        (record {
          id = id;
          domain_id = d.id;
          user_id = d.user_id;
          backend_type = body.backend_type;
          config = body.config;
          credentials_ct = none;
        })
        credentials
  replied (b, record t { backends = t.backends ++ b ∷ [] })

unfoldable pub create_backend :
    Database → Shipped → DdnsScope → ℕ → ℕ → BackendIn → Tables → Reply (Backend × Tables)
unfolding get_domain bind_backend
create_backend db shipped scope id domain_id body t = do
  d ← required not_found (get_domain scope t domain_id)
  bind_backend db shipped id d body t

-- `none` is a body without a config.
pub record BackendUpdateIn : Type 0 where
  pub config : Option (Dict Json)
  pub credentials : CredentialsField

abbrev pub reject_config : Shipped → Option (Dict Json) → Reply Bool
reject_config shipped none = replied true
reject_config shipped (some config) = reject_secrets_in_config shipped config

abbrev pub with_config : Option (Dict Json) → Backend → Backend
with_config none b = b
with_config (some config) b = record b { config = config }

abbrev pub change_backend : ℕ → Backend → List Backend → List Backend
change_backend id b bs = map (λ x. if x.id == id then b else x) bs

unfoldable pub update_backend :
    Database → Shipped → DdnsScope → ℕ → BackendUpdateIn → Tables → Reply (Backend × Tables)
unfolding get_backend reject_secrets_in_config coerce_credentials require_complete_credentials
    apply_credentials
update_backend db shipped scope id body t = do
  b ← required not_found (get_backend scope t id)
  reject_config shipped body.config
  credentials ← coerce_credentials body.credentials
  require_complete_credentials shipped b.backend_type credentials
  b' ← apply_credentials db (with_config body.config b) credentials
  replied (b', record t { backends = change_backend id b' t.backends })

unfoldable pub delete_backend : DdnsScope → ℕ → Tables → Reply Tables
unfolding get_backend remove_backend
delete_backend scope id t = do
  b ← required not_found (get_backend scope t id)
  replied (remove_backend id t)
