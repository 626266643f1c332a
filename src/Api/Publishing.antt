-- ===== src/Api/Publishing.antt =====
-- What a name publishes to and at which TTL, the choice of both, and the adoption of what the zone carries
-- (backend/src/atrium_ddns/router.py).
pub mod Ttl
pub mod Lists
pub mod Loaded
pub mod Choices
pub mod Chosen
use atrium_ddns.Prelude.{
  ℕ, zero, Bool, true, false, ◌&&◌, ◌||◌, not, Option, none, some, List, [], ◌∷◌, ◌++◌, map, filter,
  any, length, ◌==◌, if◌then◌else◌, or_default, is_some, leb,
}
use atrium_ddns.Prelude.Int.{ℤ, pos, leb_ℤ}
use atrium_ddns.Text.{Text, codes, text_eq}
use atrium_ddns.Dict.{get}
use atrium_ddns.Store.{Tables, Domain, Backend, Hostname, Selected, change_hostname}
use atrium_ddns.Store.Selection.{
  domain_of, domain_backends, selected_backends, resolve_backends, resolve_ttl,
}
use atrium_ddns.Scope.{DdnsScope, get_hostname, sees, predicate, selection, owns_selection}
use atrium_ddns.Provider.Account.{Json}
use atrium_ddns.Nic.Load.{default_ttl, int_of}
use atrium_ddns.Api.Replies.{
  Refusal, not_found, conflict, unprocessable, Reply, refused, replied, ◌>>=◌, ◌>>◌, required,
  refuse_if,
}

-- `_int_or_none`.
abbrev int_or_none : Option Json → Option ℤ
int_or_none none = none
int_or_none (some value) = int_of value

-- `… or DEFAULT_TTL`.
abbrev pub or_default_ttl : Option ℤ → ℤ
or_default_ttl none = default_ttl
or_default_ttl (some (pos zero)) = default_ttl
or_default_ttl (some ttl) = ttl

unfoldable pub effective_ttl : Hostname → Backend → ℤ
unfolding resolve_ttl
effective_ttl h b = or_default_ttl (int_or_none (resolve_ttl h b))

pub record HostnameBackendChoiceOut : Type 0 where
  pub backend_id : ℕ
  pub backend_type : Text
  pub selected : Bool
  pub credentials_set : Bool
  pub binding_ttl : Option ℤ
  pub effective_ttl : ℤ

pub record HostnamePublishingOut : Type 0 where
  pub zone_differs : Option Text
  pub hostname_id : ℕ
  pub name : Text
  pub domain_id : ℕ
  pub domain_name : Text
  pub device_id : Option ℕ
  pub inherits_backends : Bool
  pub ttl : Option ℤ
  pub backends : List HostnameBackendChoiceOut
  pub publishes_to : List ℕ

abbrev pub has_id : List ℕ → ℕ → Bool
has_id ids id = any (λ x. x == id) ids

abbrev pub ids_of : List Backend → List ℕ
ids_of bs = map (λ b. b.id) bs

abbrev pub same_address : Option Text → Option Text → Bool
same_address none none = true
same_address (some s) (some s') = text_eq s s'
same_address _ _ = false

-- The zone carries what is recorded as published.
unfoldable pub agrees : Hostname → Bool
agrees h = same_address h.dns_ip_v4 h.last_ip_v4 && same_address h.dns_ip_v6 h.last_ip_v6

-- `a or b`: an empty text is none.
abbrev pub either_address : Option Text → Option Text → Option Text
either_address (some (c ∷ s)) other = some (c ∷ s)
either_address _ other = other

unfoldable pub zone_differs_of : Hostname → Option Text
unfolding agrees
zone_differs_of h =
    if is_some h.dns_checked_at && not (agrees h)
    then either_address h.dns_ip_v6 h.dns_ip_v4
    else none

abbrev choice_of : Hostname → List ℕ → Backend → HostnameBackendChoiceOut
choice_of h selected_ids b = record {
  backend_id = b.id;
  backend_type = b.backend_type;
  selected = has_id selected_ids b.id;
  credentials_set = is_some b.credentials_ct;
  binding_ttl = int_or_none (get b.config (codes "ttl"));
  effective_ttl = effective_ttl h b;
}

abbrev pub has_none : List ℕ → Bool
has_none [] = true
has_none (id ∷ ids) = false

-- `_publishing_out`.
unfoldable pub publishing_out : Tables → Hostname → Domain → HostnamePublishingOut
unfolding zone_differs_of resolve_backends effective_ttl
publishing_out t h d =
    let selected_ids = ids_of (selected_backends t h) in
    record {
      zone_differs = zone_differs_of h;
      hostname_id = h.id;
      name = h.name;
      domain_id = d.id;
      domain_name = d.name;
      device_id = h.device_id;
      inherits_backends = has_none selected_ids;
      ttl = h.ttl;
      backends = map (choice_of h selected_ids) (domain_backends t d.id);
      publishes_to = ids_of (resolve_backends t h);
    }

-- `_load_publishing`; a row without its domain, which a foreign key rules out, is taken for no row.
unfoldable pub load_publishing : DdnsScope → Tables → ℕ → Reply (Hostname × Domain)
unfolding get_hostname
load_publishing scope t id = do
  h ← required not_found (get_hostname scope t id)
  d ← required not_found (domain_of t h)
  replied (h, d)

unfoldable pub get_hostname_publishing : DdnsScope → ℕ → Tables → Reply HostnamePublishingOut
unfolding load_publishing publishing_out
get_hostname_publishing scope id t = do
  loaded ← load_publishing scope t id
  replied (publishing_out t loaded.0 loaded.1)

pub record HostnamePublishingIn : Type 0 where
  pub backend_ids : Option (List ℕ)
  pub ttl : Option ℤ

-- `ge=TTL_MIN, le=TTL_MAX`.
abbrev ttl_in_bounds : Option ℤ → Bool
ttl_in_bounds none = true
ttl_in_bounds (some ttl) = leb_ℤ (pos 30) ttl && leb_ℤ ttl (pos 86400)

-- `list(dict.fromkeys(ids))`.
unfoldable pub distinct : List ℕ → List ℕ
distinct [] = []
distinct (id ∷ ids) = id ∷ filter (λ x. not (x == id)) (distinct ids)

abbrev pub requested_ids : HostnamePublishingIn → List ℕ
requested_ids body = or_default body.backend_ids []

abbrev pub unknown : List ℕ → List Backend → List ℕ
unknown ids bs = filter (λ id. not (has_id (ids_of bs) id)) ids

-- The name's old selection that the scope reaches goes, and the new one comes.
unfoldable pub select_backends : DdnsScope → Tables → ℕ → List ℕ → List Selected
unfolding predicate
select_backends scope t id ids =
    filter (λ s. not (s.hostname_id == id && sees scope selection (owns_selection t s)))
      t.selections
    ++ map (λ backend_id. record { hostname_id = id; backend_id = backend_id }) ids

abbrev pub set_ttl : Option ℤ → Hostname → Hostname
set_ttl ttl h = record h { ttl = ttl }

unfoldable pub set_hostname_publishing :
    DdnsScope → ℕ → HostnamePublishingIn → Tables → Reply (HostnamePublishingOut × Tables)
unfolding load_publishing distinct select_backends publishing_out
set_hostname_publishing scope id body t = do
  refuse_if unprocessable (not (ttl_in_bounds body.ttl))
  loaded ← load_publishing scope t id
  let requested = distinct (requested_ids body)
  refuse_if unprocessable (not (has_none (unknown requested (domain_backends t loaded.1.id))))
  let t' = record t {
    selections = select_backends scope t loaded.0.id requested;
    hostnames = change_hostname loaded.0.id (set_ttl body.ttl) t.hostnames;
  }
  again ← load_publishing scope t' id
  replied (publishing_out t' again.0 again.1, t')
