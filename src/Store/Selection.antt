-- ===== src/Store/Selection.antt =====
-- `resolve_backends` and `resolve_ttl` (backend/src/atrium_ddns/models.py), and the relationships that
-- they read.
use atrium_ddns.Prelude.{ℕ, Bool, Option, none, some, List, [], ◌∷◌, ◌&&◌, ◌==◌, filter, any, find?}
use atrium_ddns.Text.{codes}
use atrium_ddns.Dict.{get}
use atrium_ddns.Provider.Account.{Json, num}
use atrium_ddns.Store.{Tables, Hostname, Domain, Backend, Selected}

-- `hostname.domain`.
abbrev pub domain_of : Tables → Hostname → Option Domain
domain_of t h = find? (λ d. d.id == h.domain_id) t.domains

-- `domain.backends`, in id order.
abbrev pub domain_backends : Tables → ℕ → List Backend
domain_backends t domain_id = filter (λ b. b.domain_id == domain_id) t.backends

-- `b.id in chosen`, for the selections of one name.
abbrev pub is_chosen : List Selected → ℕ → ℕ → Bool
is_chosen selections hostname_id backend_id =
    any (λ s. s.hostname_id == hostname_id && s.backend_id == backend_id) selections

-- `hostname.selected_backends`: the backends of the name's selection rows.
abbrev pub selected_backends : Tables → Hostname → List Backend
selected_backends t h = filter (λ b. is_chosen t.selections h.id b.id) t.backends

abbrev pub has_id : List Backend → ℕ → Bool
has_id chosen id = any (λ b. b.id == id) chosen

abbrev pub pick : List Backend → List Backend → List Backend
pick [] backends = backends
pick (c ∷ chosen) backends = filter (λ b. has_id (c ∷ chosen) b.id) backends

-- An empty selection is every backend of the domain; another is filtered out of the domain's.
unfoldable pub resolve_backends : Tables → Hostname → List Backend
resolve_backends t h = pick (selected_backends t h) (domain_backends t h.domain_id)

-- The name's own TTL, else the binding's, else none.
unfoldable pub resolve_ttl : Hostname → Backend → Option Json
resolve_ttl h b = elim h.ttl [ some ttl ↦ some (num ttl) | none ↦ get b.config (codes "ttl") ]
