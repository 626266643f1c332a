-- ===== src/Api/Events.antt =====
-- The log: `build_events_query` and the paging of `get_events` (backend/src/atrium_ddns/router.py). An
-- event's id is its place in the table; instants of a filter and of a cursor are taken after they are
-- parsed.
pub mod Order
pub mod Paging
use atrium_ddns.Prelude.{
  ℕ, zero, suc, ◌+◌, ◌*◌, Bool, true, false, ◌&&◌, ◌||◌, not, Option, none, some, List, [], ◌∷◌,
  ◌++◌, filter, length, take, leb, ltb, ◌==◌, is_some, if◌then◌else◌,
}
use atrium_ddns.Text.{Text, codes, text_eq, contains}
use atrium_ddns.Status.{Status, wire, EventType, update, delete, auth, manual_update, adopt_zone}
use atrium_ddns.Store.{Tables, DnsEvent, Instant}
use atrium_ddns.Scope.{
  DdnsScope, sees, predicate, dns_event, owns_event, reaches_all_tenants, admin, events_read_all,
}

-- A row of the log with its id.
abbrev pub Row : Type 0
Row = ℕ × DnsEvent

unfoldable pub numbered : ℕ → List DnsEvent → List Row
numbered i [] = []
numbered i (e ∷ es) = (i, e) ∷ numbered (suc i) es

pub record EventFilters : Type 0 where
  pub user_id : Option ℕ
  pub device_id : Option ℕ
  pub domain_id : Option ℕ
  pub hostname_id : Option ℕ
  pub event_type : Option Text
  pub response_code : Option Text
  pub backend_type : Option Text
  pub client_ip : Option Text
  pub since : Option Instant
  pub until : Option Instant

-- The tokens of the event types.
unfoldable pub event_token : EventType → Text
event_token update = codes "update"
event_token delete = codes "delete"
event_token auth = codes "auth"
event_token manual_update = codes "manual_update"
event_token adopt_zone = codes "adopt_zone"

abbrev backend_type_none : Text
backend_type_none = codes "__none__"

-- `column = :value`, which NULL never is, as the database compares texts; a filter that is not given lets everything through.
abbrev pub id_is : Option ℕ → Option ℕ → Bool
id_is none column = true
id_is (some n) none = false
id_is (some n) (some m) = m == n

abbrev pub text_is : (Text → Text → Bool) → Option Text → Option Text → Bool
text_is same_text none column = true
text_is same_text (some s) none = false
text_is same_text (some s) (some c) = same_text c s

abbrev code_text : Option Status → Option Text
code_text none = none
code_text (some code) = some (wire code)

-- The third state of the filter: no backend at all.
abbrev pub backend_is : (Text → Text → Bool) → Option Text → Option Text → Bool
backend_is same_text none column = true
backend_is same_text (some s) column =
    if text_eq s backend_type_none then not (is_some column) else text_is same_text (some s) column

abbrev not_before : Option Instant → Instant → Bool
not_before none at = true
not_before (some since) at = leb since at

abbrev not_after : Option Instant → Instant → Bool
not_after none at = true
not_after (some until) at = leb at until

unfoldable pub passes : (Text → Text → Bool) → EventFilters → DnsEvent → Bool
unfolding event_token wire
passes same_text f e =
    id_is f.user_id e.user_id
    && id_is f.device_id e.device_id
    && id_is f.domain_id e.domain_id
    && id_is f.hostname_id e.hostname_id
    && text_is same_text f.client_ip e.client_ip
    && text_is same_text f.event_type (some (event_token e.event_type))
    && text_is same_text f.response_code (code_text e.response_code)
    && backend_is same_text f.backend_type e.backend_type
    && not_before f.since e.created_at
    && not_after f.until e.created_at

-- `(created_at, id)` of the last row of a page.
pub record Cursor : Type 0 where
  pub at : Instant
  pub id : ℕ

-- `created_at <= :c AND (created_at < :c OR id < :i)`.
abbrev pub below : Cursor → Row → Bool
below c (id, e) = leb e.created_at c.at && (ltb e.created_at c.at || ltb id c.id)

abbrev pub below_cursor : Option Cursor → Row → Bool
below_cursor none row = true
below_cursor (some c) row = below c row

-- `ORDER BY created_at DESC, id DESC`.
abbrev pub newer : Row → Row → Bool
newer (i, e) (j, f) = ltb f.created_at e.created_at || (e.created_at == f.created_at && ltb j i)

unfoldable pub insert_row : Row → List Row → List Row
insert_row x [] = x ∷ []
insert_row x (y ∷ ys) = if newer x y then x ∷ y ∷ ys else y ∷ insert_row x ys

unfoldable pub newest_first : List Row → List Row
unfolding insert_row
newest_first [] = []
newest_first (x ∷ xs) = insert_row x (newest_first xs)

-- The rows that the scope admits and the filters let through.
abbrev pub matches : (Text → Text → Bool) → DdnsScope → EventFilters → Row → Bool
matches same_text scope f (id, e) = sees scope dns_event (owns_event e) && passes same_text f e

unfoldable pub build_events_query :
    (Text → Text → Bool) → DdnsScope → EventFilters → Option Cursor → ℕ → List DnsEvent → List Row
unfolding predicate passes numbered newest_first
build_events_query same_text scope f cursor limit events = take limit (
    newest_first (
      filter (λ row. matches same_text scope f row && below_cursor cursor row) (numbered 0 events)))

pub record EventPage : Type 0 where
  pub rows : List Row
  pub next_cursor : Option Cursor

abbrev pub cursor_of : Row → Cursor
cursor_of (id, e) = record { at = e.created_at; id = id }

-- `encode_cursor(events[-1]…)`.
abbrev pub last_cursor : List Row → Option Cursor
last_cursor [] = none
last_cursor (x ∷ []) = some (cursor_of x)
last_cursor (x ∷ y ∷ rows) = last_cursor (y ∷ rows)

abbrev pub page_of : ℕ → List Row → EventPage
page_of limit fetched = record {
  rows = take limit fetched;
  next_cursor = if ltb limit (length fetched) then last_cursor (take limit fetched) else none;
}

-- `user_id is not None and not cross_tenant and user_id != scope.user_id`.
abbrev same_id : Option ℕ → ℕ → Bool
same_id none n = false
same_id (some m) n = m == n

abbrev pub is_other_tenant : DdnsScope → Option ℕ → Bool
is_other_tenant scope none = false
is_other_tenant scope (some id) =
    not (reaches_all_tenants scope (admin ∷ events_read_all ∷ [])) && not (same_id scope.user_id id)

-- The rows and the cursor of `get_events`; `none` is the 403 for another tenant's log.
unfoldable pub get_events :
    (Text → Text → Bool)
    → DdnsScope
    → EventFilters
    → Option Cursor
    → ℕ
    → List DnsEvent
    → Option EventPage
unfolding build_events_query predicate
get_events same_text scope f cursor limit events =
    if is_other_tenant scope f.user_id
    then none
    else some (page_of limit (build_events_query same_text scope f cursor (suc limit) events))
