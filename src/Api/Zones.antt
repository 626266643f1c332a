-- ===== src/Api/Zones.antt =====
-- The zones: claiming, renaming and dropping one (backend/src/atrium_ddns/router.py).
use atrium_ddns.Prelude.{
  ℕ, Bool, true, false, ◌&&◌, not, Option, none, some, List, [], ◌∷◌, ◌++◌, map, filter, any, ◌==◌,
  if◌then◌else◌,
}
use atrium_ddns.Text.{Text, lower, strip, is_empty, text_eq}
use atrium_ddns.Zone.{zone_contains}
use atrium_ddns.Store.{Tables, Domain, Hostname}
use atrium_ddns.Scope.{DdnsScope, select_hostnames}
use atrium_ddns.Provider.Adapter.{rstrip_dots}
use atrium_ddns.Api.Replies.{
  forbidden, not_found, conflict, unprocessable, Reply, replied, ◌>>=◌, ◌>>◌, required, refuse_if,
  Database,
}
use atrium_ddns.Api.Rows.{get_domain, remove_domain}
use atrium_ddns.Api.Backends.{Shipped, BackendIn, bind_backend}

-- `_normalise_zone`.
unfoldable pub normalise_zone : Text → Text
normalise_zone name = lower (rstrip_dots (strip name))

-- The unique name: another row has it.
abbrev pub is_claimed : Database → Tables → Text → Bool
is_claimed db t name = any (λ d. db.same_text d.name name) t.domains

-- `body.backend`, with the id that the database gives the binding.
abbrev pub bind_first :
    Database → Shipped → ℕ → Domain → Option BackendIn → Tables → Reply (Domain × Tables)
bind_first db shipped id d none t = replied (d, t)
bind_first db shipped id d (some body) t = do
  bound ← bind_backend db shipped id d body t
  replied (d, bound.1)

-- The ids are those that the database gives the zone and its first binding.
unfoldable pub create_domain :
    Database
    → Shipped
    → DdnsScope
    → ℕ
    → ℕ
    → Text
    → Option BackendIn
    → Tables
    → Reply (Domain × Tables)
unfolding normalise_zone bind_backend
create_domain db shipped scope id backend_id body_name backend t = do
  user_id ← required forbidden scope.user_id
  let name = normalise_zone body_name
  refuse_if unprocessable (is_empty name)
  refuse_if conflict (is_claimed db t name)
  let d : Domain = record { id = id; user_id = user_id; name = name }
  bind_first db shipped backend_id d backend (record t { domains = t.domains ++ d ∷ [] })

-- The names that a zone of this name would leave outside.
abbrev pub orphans : DdnsScope → Tables → ℕ → Text → List Hostname
orphans scope t id name =
    filter (λ h. h.domain_id == id && not (zone_contains name h.name)) (select_hostnames scope t)

abbrev pub has_rows : List Hostname → Bool
has_rows [] = false
has_rows (h ∷ hs) = true

-- The unique name, of any row but this one.
abbrev pub is_claimed_by_other : Database → Tables → ℕ → Text → Bool
is_claimed_by_other db t id name = any (λ d. not (d.id == id) && db.same_text d.name name) t.domains

abbrev pub rename_row : ℕ → Text → Domain → Domain
rename_row id name d = if d.id == id then record d { name = name } else d

abbrev rename_checked : Database → DdnsScope → Domain → Text → Tables → Reply (Domain × Tables)
rename_checked db scope d name t = do
  refuse_if conflict (has_rows (orphans scope t d.id name))
  refuse_if conflict (is_claimed_by_other db t d.id name)
  replied (record d { name = name }, record t { domains = map (rename_row d.id name) t.domains })

unfoldable pub rename_domain : Database → DdnsScope → ℕ → Text → Tables → Reply (Domain × Tables)
unfolding get_domain normalise_zone select_hostnames zone_contains
rename_domain db scope id body_name t = do
  d ← required not_found (get_domain scope t id)
  let name = normalise_zone body_name
  refuse_if unprocessable (is_empty name)
  if text_eq name d.name then replied (d, t) else rename_checked db scope d name t

unfoldable pub delete_domain : DdnsScope → ℕ → Tables → Reply Tables
unfolding get_domain remove_domain
delete_domain scope id t = do
  d ← required not_found (get_domain scope t id)
  replied (remove_domain id t)
