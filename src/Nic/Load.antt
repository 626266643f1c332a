-- ===== src/Nic/Load.antt =====
-- `load_plans` and `_backend_plan`. The secrets of the users are a parameter.
pub mod Ownership
use atrium_ddns.Prelude.{
  ℕ, suc, ◌+◌, ◌-◌, ◌*◌, Bool, true, false, not, ◌&&◌, ◌==◌, leb, Option, none, some, List, [], ◌∷◌,
  ◌++◌, any, map, filter, is_some, or_default, if◌then◌else◌, map_option, zero,
}
use atrium_ddns.Prelude.Int.{ℤ, pos, negsuc}
use atrium_ddns.Text.{Text, contains, lower, strip}
use atrium_ddns.Dict.{Dict, get, put}
use atrium_ddns.Provider.Account.{Json, null, bool, num, fraction, str}
use atrium_ddns.Store.{Tables, Hostname, Domain, Backend}
use atrium_ddns.Store.Selection.{domain_of, domain_backends, resolve_backends, resolve_ttl}
use atrium_ddns.Scope.{select_hostnames}
use atrium_ddns.Auth.Device.{DeviceAuth, scope}
use atrium_ddns.Nic.Dns.{BackendPlan, HostnamePlan}

-- `unlock_user_secrets` is false where it raises `SecretShreddedError`; `reveal` is the descriptor of an
-- unlocked owner's ciphertext.
pub record Vault : Type 0 where
  pub unlock : ℕ → Bool
  pub reveal : ℕ → Text → Option (Dict Json)

abbrev pub default_ttl : ℤ
default_ttl = pos 60

abbrev is_digit : ℕ → Bool
is_digit c = leb b'0' c && leb c b'9'

-- The rest of a number after a digit: digits, with single underscores between them.
abbrev read_digits : ℕ → Text → Option ℕ
read_digits n [] = some n
read_digits n (c ∷ []) = if is_digit c then some (10 * n + (c - b'0')) else none
read_digits n (c ∷ d ∷ s) =
    let digit = read_digits (10 * n + (c - b'0')) (d ∷ s) in
    let after = read_digits (10 * n + (d - b'0')) s in
    if is_digit c then digit else if c == b'_' && is_digit d then after else none

abbrev read_natural : Text → Option ℕ
read_natural [] = none
read_natural (c ∷ s) = if is_digit c then read_digits (c - b'0') s else none

abbrev negate : ℕ → ℤ
negate zero = pos 0
negate (suc n) = negsuc n

-- `int(s)`, for ASCII digits.
unfoldable pub int_of_text : Text → Option ℤ
int_of_text [] = none
int_of_text (c ∷ s) =
    if c == b'-'
    then map_option negate (read_natural s)
    else if c == b'+'
    then map_option pos (read_natural s)
    else map_option pos (read_natural (c ∷ s))

abbrev int_of_bool : Bool → ℤ
int_of_bool true = pos 1
int_of_bool false = pos 0

-- `int(ttl)`; `none` is its `TypeError` or `ValueError`.
abbrev pub int_of : Json → Option ℤ
int_of (bool b) = some (int_of_bool b)
int_of (num n) = some n
int_of (fraction n) = some n
int_of (str s) = int_of_text (strip s)
int_of _ = none

-- A null in the binding is no TTL.
unfoldable pub coerce_ttl : Option Json → ℤ
coerce_ttl none = default_ttl
coerce_ttl (some null) = default_ttl
coerce_ttl (some value) = or_default (int_of value) default_ttl

abbrev has_number : List ℕ → ℕ → Bool
has_number ns n = any (λ m. m == n) ns

abbrev reveal_for : Vault → List ℕ → Backend → Option (Dict Json)
reveal_for vault locked backend = elim backend.credentials_ct [
  | none ↦ none
  | some ciphertext ↦
      if has_number locked backend.user_id then none else vault.reveal backend.user_id ciphertext
]

-- `_backend_plan`.
unfoldable pub backend_plan : Vault → List ℕ → Hostname → Domain → Backend → BackendPlan
backend_plan vault locked h d backend = record {
  backend_id = backend.id;
  backend_type = backend.backend_type;
  domains = d.name ∷ [];
  credentials = reveal_for vault locked backend;
  config = backend.config;
  ttl = coerce_ttl (resolve_ttl h backend);
}

abbrev assigned_to : ℕ → Hostname → Bool
assigned_to device_id h = elim h.device_id [ none ↦ false | some id ↦ id == device_id ]

-- The one query: under the device's scope, the names asked for that are assigned to the device.
unfoldable pub requested_rows : Tables → DeviceAuth → List Text → List Hostname
requested_rows t auth requested =
    filter (λ h. contains (map lower requested) h.name && assigned_to auth.device.id h)
      (select_hostnames (scope auth) t)

-- `{row.name: row for row in rows}`: a later row of the same name replaces an earlier one.
by_name_from : Dict Hostname → List Hostname → Dict Hostname
by_name_from d [] = d
by_name_from d (row ∷ rows) = by_name_from (put d row.name row) rows

unfoldable pub by_name : List Hostname → Dict Hostname
unfolding by_name_from
by_name rows = by_name_from [] rows

-- `owners_with_ciphertext`, as often as they stand there.
owners_of_row : Tables → Hostname → List ℕ
owners_of_row t h = elim (domain_of t h) [
  | none ↦ []
  | some d ↦ map (λ b. d.user_id) (filter (λ b. is_some b.credentials_ct) (domain_backends t d.id))
]

owners_with_ciphertext : Tables → List Hostname → List ℕ
owners_with_ciphertext t [] = []
owners_with_ciphertext t (row ∷ rows) = owners_of_row t row ++ owners_with_ciphertext t rows

-- The owners whose key is gone.
unfoldable pub locked_owners : Vault → Tables → List Hostname → List ℕ
unfolding owners_with_ciphertext owners_of_row
locked_owners vault t rows =
    filter (λ owner. not (vault.unlock owner)) (owners_with_ciphertext t rows)

unfoldable pub unresolved_plan : Text → HostnamePlan
unresolved_plan name = record {
  requested = name;
  lookup = lower name;
  hostname_id = none;
  domain_id = none;
  domain_name = none;
  backends = [];
}

unfoldable pub resolved_plan : Vault → Tables → List ℕ → Text → Hostname → Domain → HostnamePlan
resolved_plan vault t locked name row d = record {
  requested = name;
  lookup = row.name;
  hostname_id = some row.id;
  domain_id = some row.domain_id;
  domain_name = some d.name;
  backends = map (backend_plan vault locked row d) (resolve_backends t row);
}

-- A row whose domain is missing, which a foreign key rules out, is taken for no row.
abbrev pub plan_in : Vault → Tables → List ℕ → Text → Hostname → Option Domain → HostnamePlan
plan_in vault t locked name row none = unresolved_plan name
plan_in vault t locked name row (some d) = resolved_plan vault t locked name row d

abbrev pub plan_for : Vault → Tables → List ℕ → Text → Option Hostname → HostnamePlan
plan_for vault t locked name none = unresolved_plan name
plan_for vault t locked name (some row) = plan_in vault t locked name row (domain_of t row)

unfoldable pub load_plans : Vault → Tables → DeviceAuth → List Text → List HostnamePlan
load_plans vault t auth requested =
    let rows = requested_rows t auth requested in
    map
      (λ name. plan_for vault t (locked_owners vault t rows) name (get (by_name rows) (lower name)))
      requested
