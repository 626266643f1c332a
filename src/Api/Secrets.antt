-- ===== src/Api/Secrets.antt =====
-- What becomes of the credentials of a binding, and that none is stored in the clear.
pub mod Changed
pub mod Clean
use atrium_ddns.Prelude.{
  ℕ, ◌≡◌, ◌⊎◌, inl, inr, refl, sym, ap, ◌∙◌, subst, Bool, true, false, Option, none, some, List, [],
  ◌∷◌, ◌++◌, IsIn, map, filter, filter-IsIn, any, ◌==◌, Bool-cases, if_true, if_false, not,
  Option-cases, ◌↔◌, ◌&&◌, &&_parts, find?-some,
}
use atrium_ddns.Text.{Text}
use atrium_ddns.Api.Secrets.Changed.{find?-change_backend, IsIn-change_backend}
use atrium_ddns.Dict.{Dict, keys}
use atrium_ddns.Provider.Account.{Json}
use atrium_ddns.Store.{Tables, Domain, Backend}
use atrium_ddns.Scope.{DdnsScope, sees, predicate, backend, owns_backend}
use atrium_ddns.Api.Replies.{
  Database, Reply, replied, refused, required-replied, refuse_if-replied, >>=-replied, >>-replied,
  replied-inj, Refusal, unprocessable, refuse_if, unavailable,
}
use atrium_ddns.Api.Rows.{get_backend}
use atrium_ddns.Api.Backends.{
  change_backend, Shipped, BackendIn, BackendUpdateIn, CredentialsField, blank, cleared, malformed,
  object, Credentials, preserve, clear, replace, is_secret_key, reject_secrets_in_config,
  coerce_credentials, texts_of, require_complete_credentials, apply_credentials, bind_backend,
  update_backend, reject_config, with_config,
}

-- No key of a stored config is a credential key of a registered class.
abbrev pub IsClean : Shipped → Backend → Type 0
IsClean shipped b = any (is_secret_key shipped) (keys b.config) ≡ false

-- What the field asks for, and what is stored then.
pub data IsStored (db : Database) (old : Backend) : CredentialsField → Option Text → Type 0 where
  keeps : IsStored db old blank old.credentials_ct
  clears : IsStored db old cleared none
  replaces :
      (sent : Dict Json) (texts : Dict Text) (ciphertext : Text)
      → texts_of sent ≡ some texts
      → db.encrypt old.user_id texts ≡ some ciphertext
      → IsStored db old (object sent) (some ciphertext)

abbrev Stores : Database → Backend → CredentialsField → Backend → Type 0
Stores db b field b' =
    IsStored db b field b'.credentials_ct
    × (b'.config ≡ b.config)
    × (b'.user_id ≡ b.user_id)
    × (b'.id ≡ b.id)

abbrev Applied : Database → Backend → Credentials → Backend → Type 0
Applied db b c b' = apply_credentials db b c ≡ replied b'

pub coerced-IsStored :
    (db : Database) (b : Backend) (field : CredentialsField) (c : Credentials) (b' : Backend)
    → coerce_credentials field ≡ replied c
    → Applied db b c b'
    → Stores db b field b'
unfolding coerce_credentials apply_credentials
coerced-IsStored db b blank c b' h k =
    let same : b ≡ b' = replied-inj (subst (λ x. Applied db b x b') (sym (replied-inj h)) k) in
    subst (Stores db b blank) same (keeps, refl, refl, refl)
coerced-IsStored db b cleared c b' h k =
    let same : record b { credentials_ct = none } ≡ b' =
      replied-inj (subst (λ x. Applied db b x b') (sym (replied-inj h)) k) in
    subst (Stores db b cleared) same (clears, refl, refl, refl)
coerced-IsStored db b malformed c b' h k = absurd (cc h)
coerced-IsStored db b (object []) c b' h k = absurd (cc h)
coerced-IsStored db b (object (entry ∷ d)) c b' h k = elim (Option-cases (texts_of (entry ∷ d))) [
  | inl e ↦ absurd (cc (rw e at h))
  | inr (texts, e) ↦
      let asked : replace texts ≡ c = replied-inj (rw e at h) in
      let (ciphertext, f, r) =
        required-replied unavailable (db.encrypt b.user_id texts)
          (λ x. replied (record b { credentials_ct = some x }))
          (subst (λ x. Applied db b x b') (sym asked) k) in
      subst (Stores db b (object (entry ∷ d))) (replied-inj r)
        (replaces (entry ∷ d) texts ciphertext e f, refl, refl, refl)
]

pub config_checked :
    (shipped : Shipped) (config : Dict Json) {x : Bool}
    → reject_secrets_in_config shipped config ≡ replied x
    → any (is_secret_key shipped) (keys config) ≡ false
unfolding reject_secrets_in_config refuse_if
config_checked shipped config h = elim (Bool-cases (any (is_secret_key shipped) (keys config))) [
  | inl e ↦ absurd (cc (rw e at h))
  | inr e ↦ e
]

-- Only the owner and the credentials of the old row matter.
IsStored-config :
    (db : Database) (b : Backend) (config : Dict Json) (field : CredentialsField) (o : Option Text)
    → IsStored db (record b { config = config }) field o
    → IsStored db b field o
IsStored-config db b config field o keeps = keeps
IsStored-config db b config field o clears = clears
IsStored-config db b config field o (replaces sent texts ciphertext e f) =
    replaces sent texts ciphertext e f

-- A config that is left out is kept; another is stored, if it names no credential key.
abbrev pub IsConfigured : Shipped → Option (Dict Json) → Backend → Backend → Type 0
IsConfigured shipped config b b' =
    ((config ≡ none) × (b'.config ≡ b.config)) ⊎ ((config ≡ some b'.config) × IsClean shipped b')

abbrev pub Updated : Database → Shipped → BackendUpdateIn → Backend → Backend → Type 0
Updated db shipped body b b' =
    IsStored db b body.credentials b'.credentials_ct
    × (b'.user_id ≡ b.user_id)
    × (b'.id ≡ b.id)
    × IsConfigured shipped body.config b b'

configured-Updated :
    (db : Database) (shipped : Shipped) (config : Option (Dict Json)) (field : CredentialsField)
    (b b2 : Backend) (c : Credentials) {x : Bool}
    → reject_config shipped config ≡ replied x
    → coerce_credentials field ≡ replied c
    → apply_credentials db (with_config config b) c ≡ replied b2
    → Updated db shipped (record { config = config; credentials = field }) b b2
configured-Updated db shipped none field b b2 c e2 e3 e5 =
    let (st, cfg, uid, same_id) = coerced-IsStored db b field c b2 e3 e5 in
    (st, uid, same_id, inl (refl, cfg))
configured-Updated db shipped (some config) field b b2 c e2 e3 e5 =
    let (st, cfg, uid, same_id) =
      coerced-IsStored db (record b { config = config }) field c b2 e3 e5 in
    (
      IsStored-config db b config field b2.credentials_ct st,
      uid,
      same_id,
      inr (
        ap (λ x. some x) (sym cfg),
        subst (λ x. any (is_secret_key shipped) (keys x) ≡ false) (sym cfg)
            (config_checked shipped config e2),
      ),
    )

-- The change is stored: the binding is found again as it is replied, every binding of another id is as it
-- was, and so is every other table.
pub record IsReplaced (scope : DdnsScope) (id : ℕ) (t : Tables) (b' : Backend) (t' : Tables)
    : Type 0 where
  pub found : get_backend scope t' id ≡ some b'
  pub others : (x : Backend) → (x.id == id) ≡ false → IsIn x t'.backends ↔ IsIn x t.backends
  pub rest : t' ≡ record t { backends = t'.backends }

changed-IsReplaced :
    (scope : DdnsScope) (id : ℕ) (t : Tables) (b b' : Backend)
    → get_backend scope t id ≡ some b
    → b'.id ≡ b.id
    → b'.user_id ≡ b.user_id
    → IsReplaced scope id t b' (record t { backends = change_backend id b' t.backends })
unfolding get_backend predicate
changed-IsReplaced scope id t b b' e same_id same_owner =
    let p : Backend → Bool = λ x. x.id == id && sees scope backend (owns_backend x) in
    let (there, m) = find?-some p t.backends {a = b} e in
    let still : p b' ≡ true =
      ap (λ (k : ℕ × ℕ). k.0 == id && sees scope backend (λ uid. k.1 == uid))
        (ap (λ (k : ℕ). (k, b'.user_id)) same_id ∙ ap (λ (k : ℕ). (b.id, k)) same_owner)
      ∙ there in
    let hit : (b'.id == id) ≡ true =
      (&&_parts (b'.id == id) (sees scope backend (owns_backend b')) still).0 in
    record {
      found =
          find?-change_backend p id b b' t.backends
            (λ y h. (&&_parts (y.id == id) (sees scope backend (owns_backend y)) h).0) still e;
      others = λ x other. IsIn-change_backend id b' t.backends x hit other;
      rest = refl;
    }

pub update_backend-IsStored :
    (db : Database) (shipped : Shipped) (scope : DdnsScope) (id : ℕ) (body : BackendUpdateIn)
    (t : Tables) {b' : Backend} {t' : Tables}
    → update_backend db shipped scope id body t ≡ replied (b', t')
    → (b : Backend) × (get_backend scope t id ≡ some b)
      × Updated db shipped body b b'
      × IsReplaced scope id t b' t'
unfolding update_backend
update_backend-IsStored db shipped scope id body t {b'} {t'} h =
    let (b, e1, h1) = required-replied _ _ _ h in
    let (x2, e2, h2) = >>-replied _ _ h1 in
    let (c, e3, h3) = >>=-replied _ _ h2 in
    let (x4, e4, h4) = >>-replied _ _ h3 in
    let (b2, e5, h5) = >>=-replied _ _ h4 in
    let updated = configured-Updated db shipped body.config body.credentials b b2 c e2 e3 e5 in
    subst
      (λ (r : Backend × Tables).
        (b : Backend) × (get_backend scope t id ≡ some b)
        × Updated db shipped body b r.0
        × IsReplaced scope id t r.0 r.1)
      (replied-inj h5) (b, e1, updated, changed-IsReplaced scope id t b b2 e1 updated.2 updated.1)
