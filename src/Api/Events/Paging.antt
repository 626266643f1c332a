-- ===== src/Api/Events/Paging.antt =====
-- That following the cursors reads the whole log once.
use atrium_ddns.Prelude.{
  ℕ, zero, suc, ◌≤◌, ◌<◌, ◌≡◌, refl, sym, ap, ◌∙◌, subst, inl, inr, Bool, true, false, ◌&&◌, Option,
  none, some, List, [], ◌∷◌, ◌++◌, append_assoc, filter, length, take, drop, ltb, Bool-cases, arith,
  if_false, append-nil,
}
use atrium_ddns.Text.{Text}
use atrium_ddns.Store.{DnsEvent}
use atrium_ddns.Scope.{DdnsScope}
use atrium_ddns.Api.Events.{
  Row, EventFilters, Cursor, numbered, newest_first, matches, below, below_cursor, cursor_of,
  last_cursor, page_of, EventPage, build_events_query, get_events, is_other_tenant,
}
use atrium_ddns.Api.Events.Order.{
  IsDescending, numbered-IsAscending, filter-IsAscending, newest_first-IsDescending,
  filter-newest_first, below-suffix,
}

-- All rows that the scope admits and the filters let through, newest first.
unfoldable pub log_of : (Text → Text → Bool) → DdnsScope → EventFilters → List DnsEvent → List Row
log_of same_text scope f events =
    newest_first (filter (matches same_text scope f) (numbered 0 events))

-- A reader who follows the cursors for so many pages.
abbrev pub follow : (Option Cursor → List Row) → Option EventPage → List Row
follow next none = []
follow next (some page) = page.rows ++ elim page.next_cursor [ none ↦ [] | some c ↦ next (some c) ]

pub read_log :
    (Text → Text → Bool)
    → DdnsScope
    → EventFilters
    → ℕ
    → List DnsEvent
    → ℕ
    → Option Cursor
    → List Row
read_log same_text scope f limit events zero cursor = []
read_log same_text scope f limit events (suc n) cursor =
    follow (λ c. read_log same_text scope f limit events n c)
      (get_events same_text scope f cursor limit events)

filter-filter :
    (p q : Row → Bool) (xs : List Row) → filter (λ x. p x && q x) xs ≡ filter q (filter p xs)
filter-filter p q [] = refl
filter-filter p q (x ∷ xs) = ground (arith, filter-filter p q xs)

-- A query is a slice of the log.
build_events_query-log_of :
    (same_text : Text → Text → Bool) (scope : DdnsScope) (f : EventFilters) (cursor : Option Cursor)
    (limit : ℕ) (events : List DnsEvent)
    → build_events_query same_text scope f cursor limit events
      ≡ take limit (filter (below_cursor cursor) (log_of same_text scope f events))
unfolding build_events_query log_of
build_events_query-log_of same_text scope f cursor limit events =
    rw (filter-filter (matches same_text scope f) (below_cursor cursor) (numbered 0 events)) (
      ap (take limit) (
        filter-newest_first (below_cursor cursor)
          (filter (matches same_text scope f) (numbered 0 events))
          (filter-IsAscending (matches same_text scope f) (numbered 0 events)
            (numbered-IsAscending 0 events))))

log_of-IsDescending :
    (same_text : Text → Text → Bool) (scope : DdnsScope) (f : EventFilters) (events : List DnsEvent)
    → IsDescending (log_of same_text scope f events)
unfolding log_of
log_of-IsDescending same_text scope f events =
    newest_first-IsDescending (filter (matches same_text scope f) (numbered 0 events)) (
      filter-IsAscending (matches same_text scope f) (numbered 0 events)
        (numbered-IsAscending 0 events))

take-take : (n : ℕ) (xs : List Row) → take n (take (suc n) xs) ≡ take n xs
take-take zero xs = refl
take-take (suc n) [] = refl
take-take (suc n) (x ∷ xs) = ap (◌∷◌ x) (take-take n xs)

take_more : (n : ℕ) (xs : List Row) → ltb n (length (take (suc n) xs)) ≡ ltb n (length xs)
take_more zero [] = refl
take_more zero (x ∷ xs) = ground arith
take_more (suc n) [] = refl
take_more (suc n) (x ∷ xs) = ground (arith, take_more n xs)

take_all : (n : ℕ) (xs : List Row) → ltb n (length xs) ≡ false → take n xs ≡ xs
take_all zero [] h = refl
take_all zero (x ∷ xs) h = absurd (ground (arith, h))
take_all (suc n) [] h = refl
take_all (suc n) (x ∷ xs) h = ap (◌∷◌ x) (take_all n xs (ground (arith, h)))

take-drop : (n : ℕ) (xs : List Row) → take n xs ++ drop n xs ≡ xs
take-drop zero xs = refl
take-drop (suc n) [] = refl
take-drop (suc n) (x ∷ xs) = ap (◌∷◌ x) (take-drop n xs)

drop_shorter :
    (n : ℕ) (xs : List Row) → ltb (suc n) (length xs) ≡ true → length (drop (suc n) xs) < length xs
drop_shorter n [] h = absurd (ground (arith, h))
drop_shorter zero (x ∷ xs) h = omega arith
drop_shorter (suc n) (x ∷ xs) h = omega (arith, drop_shorter n xs (ground (arith, h)))

-- The last row of a page, and what stands around it.
last_cursor-split :
    (n : ℕ) (xs : List Row)
    → ltb (suc n) (length xs) ≡ true
    → (ps : List Row) × (z : Row) × (last_cursor (take (suc n) xs) ≡ some (cursor_of z))
      × (xs ≡ ps ++ z ∷ drop (suc n) xs)
last_cursor-split n [] h = absurd (ground (arith, h))
last_cursor-split zero (x ∷ xs) h = ([], x, refl, refl)
last_cursor-split (suc n) (x ∷ []) h = absurd (ground (arith, h))
last_cursor-split (suc n) (x ∷ y ∷ xs) h =
    let (ps, z, e, k) = last_cursor-split n (y ∷ xs) (ground (arith, h)) in
    (x ∷ ps, z, e, ap (◌∷◌ x) k)

module _ (same_text : Text → Text → Bool) (scope : DdnsScope) (f : EventFilters) (l : ℕ)
    (events : List DnsEvent) (own : is_other_tenant scope f.user_id ≡ false) where
  abbrev rest : Option Cursor → List Row
  rest cursor = filter (below_cursor cursor) (log_of same_text scope f events)

  get_events-rest :
      (cursor : Option Cursor)
      → get_events same_text scope f cursor (suc l) events
        ≡ some (page_of (suc l) (take (suc (suc l)) (rest cursor)))
  unfolding get_events
  get_events-rest cursor =
      if_false _ _ own
      ∙ ap (λ rows. some (page_of (suc l) rows))
          (build_events_query-log_of same_text scope f cursor (suc (suc l)) events)

  page-last :
      (rows : List Row) (next : Option Cursor → List Row)
      → ltb (suc l) (length rows) ≡ false
      → follow next (some (page_of (suc l) (take (suc (suc l)) rows))) ≡ rows
  page-last rows next h =
      rw (take_more (suc l) rows, h, take-take (suc l) rows, take_all (suc l) rows h)
        (append-nil rows)

  page-more :
      (rows : List Row) (next : Option Cursor → List Row) (c : Cursor)
      → ltb (suc l) (length rows) ≡ true
      → last_cursor (take (suc l) rows) ≡ some c
      → follow next (some (page_of (suc l) (take (suc (suc l)) rows)))
        ≡ take (suc l) rows ++ next (some c)
  page-more rows next c h e = rw (take_more (suc l) rows, h, take-take (suc l) rows, e) refl

  read_log-rest :
      (n : ℕ) (cursor : Option Cursor) (xs : List Row)
      → log_of same_text scope f events ≡ xs ++ rest cursor
      → length (rest cursor) < n
      → read_log same_text scope f (suc l) events n cursor ≡ rest cursor
  unfolding read_log
  read_log-rest zero cursor xs e lt = absurd (omega (arith, lt))
  read_log-rest (suc n) cursor xs e lt =
      rw (get_events-rest cursor) (elim (Bool-cases (ltb (suc l) (length (rest cursor)))) [
        | inl h ↦
            let (ps, z, k, split) = last_cursor-split l (rest cursor) h in
            let whole : log_of same_text scope f events
                ≡ (xs ++ ps) ++ z ∷ drop (suc l) (rest cursor) =
              e
              ∙ ap (λ r. xs ++ r) split
              ∙ sym (append_assoc xs ps (z ∷ drop (suc l) (rest cursor))) in
            let left : rest (some (cursor_of z)) ≡ drop (suc l) (rest cursor) =
              ap (filter (below (cursor_of z))) whole
              ∙ below-suffix (xs ++ ps) z (drop (suc l) (rest cursor))
                  (subst IsDescending whole (log_of-IsDescending same_text scope f events)) in
            let again =
              read_log-rest n (some (cursor_of z)) ((xs ++ ps) ++ z ∷ [])
                (whole
                  ∙ ap (λ r. (xs ++ ps) ++ z ∷ r) (sym left)
                  ∙ sym (append_assoc (xs ++ ps) (z ∷ []) (rest (some (cursor_of z)))))
                (omega (arith, lt, drop_shorter l (rest cursor) h, ap length left)) in
            page-more (rest cursor) (λ c. read_log same_text scope f (suc l) events n c)
              (cursor_of z) h k
            ∙ ap (λ r. take (suc l) (rest cursor) ++ r) (again ∙ left)
            ∙ take-drop (suc l) (rest cursor)
        | inr h ↦ page-last (rest cursor) (λ c. read_log same_text scope f (suc l) events n c) h
      ])

filter-always : (xs : List Row) → filter (below_cursor none) xs ≡ xs
filter-always [] = refl
filter-always (x ∷ xs) = ap (◌∷◌ x) (filter-always xs)

-- Who may read the log, and follows the cursors for more pages than there are rows, reads each row that
-- the scope admits and the filters let through once, newest first, whatever the size of a page.
pub read_log-log_of :
    (same_text : Text → Text → Bool) (scope : DdnsScope) (f : EventFilters) (limit n : ℕ)
    (events : List DnsEvent)
    → is_other_tenant scope f.user_id ≡ false
    → 1 ≤ limit
    → length (log_of same_text scope f events) < n
    → (read_log same_text scope f limit events n none ≡ log_of same_text scope f events)
      × IsDescending (log_of same_text scope f events)
read_log-log_of same_text scope f zero n events own le lt = absurd (omega (arith, le))
read_log-log_of same_text scope f (suc l) n events own le lt =
    let all = filter-always (log_of same_text scope f events) in
    (
      read_log-rest same_text scope f l events own n none [] (sym all)
            (omega (arith, lt, ap length all))
          ∙ all,
      log_of-IsDescending same_text scope f events,
    )
