-- ===== src/Worker/Devices/Log.antt =====
-- What the board reads of the log: the code of a device's newest event, and the count of its successes.
use atrium_ddns.Prelude.{
  ℕ, suc, ◌+◌, ◌*◌, ◌≤◌, ◌≡◌, ◌⊎◌, ◌↔◌, refl, inl, inr, sym, ap, ◌∙◌, Bool, true, false, ◌&&◌,
  &&_parts, Option, none, some, List, [], ◌∷◌, ◌++◌, All, filter, length, leb, ◌==◌, ==_iff,
  Bool-cases, arith, if_true, if_false, subst,
}
use mathlib.Core.Option.{some_inj}
use atrium_ddns.Status.{
  Status, EventType, update, auth, manual_update, adopt_zone, good, nochg, dnserr, nohost,
  unknown_service, notfqdn, badauth, abuse, is_settled,
}
use atrium_ddns.Store.{DnsEvent, Instant}
use atrium_ddns.Worker.Devices.{
  event_of, code_of_last, is_update, has_settled, counts_in_window, one_day,
}

-- The event is of the device.
abbrev IsOf : ℕ → DnsEvent → Type 0
IsOf id e = e.device_id ≡ some id

-- The code of the newest event of a device in a log whose last event is the newest; none is the code where
-- the log has no event of the device.
pub data IsNewestCode (id : ℕ) : List DnsEvent → Option Status → Type 0 where
  no_event : {es : List DnsEvent} → All (λ e. ¬ IsOf id e) es → IsNewestCode id es none
  newest :
      (before after : List DnsEvent) (e : DnsEvent)
      → IsOf id e
      → All (λ x. ¬ IsOf id x) after
      → IsNewestCode id (before ++ e ∷ after) e.response_code

-- So many elements have the property.
pub data IsTotal (P : DnsEvent → Type 0) : List DnsEvent → ℕ → Type 0 where
  nothing_left : IsTotal P [] 0
  one_more :
      {e : DnsEvent} {es : List DnsEvent} {n : ℕ}
      → P e
      → IsTotal P es n
      → IsTotal P (e ∷ es) (suc n)
  passed_over :
      {e : DnsEvent} {es : List DnsEvent} {n : ℕ} → ¬ P e → IsTotal P es n → IsTotal P (e ∷ es) n

-- An update of the device in the last so many days that was good or nochg.
pub record IsSuccess (now : Instant) (window_days id : ℕ) (e : DnsEvent) : Type 0 where
  pub of_device : e.device_id ≡ some id
  pub recent : now ≤ e.created_at + window_days * one_day
  pub is_of_update : e.event_type ≡ update
  pub settled : (e.response_code ≡ some good) ⊎ (e.response_code ≡ some nochg)

leb_sound : (m n : ℕ) → leb m n ≡ true → m ≤ n
leb_sound m n h = ground arith

leb_complete : (m n : ℕ) → m ≤ n → leb m n ≡ true
leb_complete m n h = ground arith

and_true : (a b : Bool) → a ≡ true → b ≡ true → (a && b) ≡ true
and_true a b h k = rw (h, k) refl

event_of_iff :
    (id : ℕ) (o : Option ℕ) → (elim o [ none ↦ false | some d ↦ d == id ] ≡ true) ↔ (o ≡ some id)
event_of_iff id none = (λ h. absurd (cc h), λ h. absurd (cc h))
event_of_iff id (some d) =
    (λ h. ap (λ n. some n) ((==_iff d id).0 h), λ h. (==_iff d id).1 (some_inj.0 h))

is_update_iff : (t : EventType) → (is_update t ≡ true) ↔ (t ≡ update)
is_update_iff update = (λ h. refl, λ h. refl)
is_update_iff EventType.delete = (λ h. absurd (cc h), λ h. absurd (cc h))
is_update_iff auth = (λ h. absurd (cc h), λ h. absurd (cc h))
is_update_iff manual_update = (λ h. absurd (cc h), λ h. absurd (cc h))
is_update_iff adopt_zone = (λ h. absurd (cc h), λ h. absurd (cc h))

unsettled :
    (code : Status)
    → is_settled code ≡ false
    → ¬ ((some code ≡ some good) ⊎ (some code ≡ some nochg))
unsettled code f (inl e) = absurd (cc (f, ap is_settled (some_inj.0 e)))
unsettled code f (inr e) = absurd (cc (f, ap is_settled (some_inj.0 e)))

pub has_settled-cases :
    (o : Option Status) → has_settled o ≡ true → (o ≡ some good) ⊎ (o ≡ some nochg)
has_settled-cases none h = absurd (cc h)
has_settled-cases (some good) h = inl refl
has_settled-cases (some nochg) h = inr refl
has_settled-cases (some dnserr) h = absurd (cc h)
has_settled-cases (some nohost) h = absurd (cc h)
has_settled-cases (some unknown_service) h = absurd (cc h)
has_settled-cases (some notfqdn) h = absurd (cc h)
has_settled-cases (some badauth) h = absurd (cc h)
has_settled-cases (some abuse) h = absurd (cc h)

cases-has_settled : (o : Option Status) → (o ≡ some good) ⊎ (o ≡ some nochg) → has_settled o ≡ true
cases-has_settled o (inl e) = ap has_settled e
cases-has_settled o (inr e) = ap has_settled e

-- The test that the count makes is that of a success.
abbrev counts : Instant → ℕ → ℕ → DnsEvent → Bool
counts now window_days id e = event_of id e && counts_in_window now window_days e

counts-IsSuccess :
    (now : Instant) (window_days id : ℕ) (e : DnsEvent)
    → counts now window_days id e ≡ true
    → IsSuccess now window_days id e
counts-IsSuccess now window_days id e h =
    let (mine, rest) = &&_parts (event_of id e) (counts_in_window now window_days e) h in
    let recent_update = leb now (e.created_at + window_days * one_day) && is_update e.event_type in
    let (more, fine) = &&_parts recent_update (has_settled e.response_code) rest in
    let (in_time, of_update) =
      &&_parts (leb now (e.created_at + window_days * one_day)) (is_update e.event_type) more in
    record {
      of_device = (event_of_iff id e.device_id).0 mine;
      recent = leb_sound now (e.created_at + window_days * one_day) in_time;
      is_of_update = (is_update_iff e.event_type).0 of_update;
      settled = has_settled-cases e.response_code fine;
    }

IsSuccess-counts :
    (now : Instant) (window_days id : ℕ) (e : DnsEvent)
    → IsSuccess now window_days id e
    → counts now window_days id e ≡ true
IsSuccess-counts now window_days id e s =
    and_true (event_of id e) (counts_in_window now window_days e)
      ((event_of_iff id e.device_id).1 s.of_device)
      (and_true (leb now (e.created_at + window_days * one_day) && is_update e.event_type)
        (has_settled e.response_code)
        (and_true (leb now (e.created_at + window_days * one_day)) (is_update e.event_type)
          (leb_complete now (e.created_at + window_days * one_day) s.recent)
          ((is_update_iff e.event_type).1 s.is_of_update))
        (cases-has_settled e.response_code s.settled))

pub window_count-IsTotal :
    (now : Instant) (window_days id : ℕ) (es : List DnsEvent)
    → IsTotal (IsSuccess now window_days id) es (length (filter (counts now window_days id) es))
window_count-IsTotal now window_days id [] = nothing_left
window_count-IsTotal now window_days id (e ∷ es) =
    let P = IsSuccess now window_days id in
    let rest = window_count-IsTotal now window_days id es in
    let after = filter (counts now window_days id) es in
    elim (Bool-cases (counts now window_days id e)) [
      | inl hit ↦
          subst (λ xs. IsTotal P (e ∷ es) (length xs)) (sym (if_true (e ∷ after) after hit))
            (one_more (counts-IsSuccess now window_days id e hit) rest)
      | inr miss ↦
          subst (λ xs. IsTotal P (e ∷ es) (length xs)) (sym (if_false (e ∷ after) after miss))
            (passed_over (λ s. cc (miss, IsSuccess-counts now window_days id e s)) rest)
    ]

-- The last event of the device in a list, if it has one, gives the code.
abbrev HasNewest : ℕ → List DnsEvent → Option Status → Type 0
HasNewest id es code =
    (before : List DnsEvent) × (after : List DnsEvent) × (e : DnsEvent) × (es ≡ before ++ e ∷ after)
    × IsOf id e
    × All (λ x. ¬ IsOf id x) after
    × (code ≡ e.response_code)

code_of_last-cases :
    (id : ℕ) (code : Option Status) (es : List DnsEvent)
    → (All (λ e. ¬ IsOf id e) es × (code_of_last code (filter (event_of id) es) ≡ code))
      ⊎ HasNewest id es (code_of_last code (filter (event_of id) es))
code_of_last-cases id code [] = inl (tt, refl)
code_of_last-cases id code (x ∷ es) =
    let rest = filter (event_of id) es in
    elim (Bool-cases (event_of id x)) [
      | inl hit ↦
          let here = if_true (x ∷ rest) rest hit in
          elim (code_of_last-cases id x.response_code es) [
            | inl (no_more, v) ↦ inr (
              [],
              es,
              x,
              refl,
              (event_of_iff id x.device_id).0 hit,
              no_more,
              ap (code_of_last code) here ∙ v,
            )
            | inr (before, after, e, split, of_e, no_more, v) ↦ inr (
              x ∷ before,
              after,
              e,
              ap (◌∷◌ x) split,
              of_e,
              no_more,
              ap (code_of_last code) here ∙ v,
            )
          ]
      | inr miss ↦
          let here = if_false (x ∷ rest) rest miss in
          elim (code_of_last-cases id code es) [
            | inl (no_more, v) ↦ inl (
              ((λ of_x. cc (miss, (event_of_iff id x.device_id).1 of_x)), no_more),
              ap (code_of_last code) here ∙ v,
            )
            | inr (before, after, e, split, of_e, no_more, v) ↦ inr (
              x ∷ before,
              after,
              e,
              ap (◌∷◌ x) split,
              of_e,
              no_more,
              ap (code_of_last code) here ∙ v,
            )
          ]
    ]

pub last_code-IsNewestCode :
    (id : ℕ) (es : List DnsEvent) → IsNewestCode id es (code_of_last none (filter (event_of id) es))
last_code-IsNewestCode id es = elim (code_of_last-cases id none es) [
  | inl (no_event_there, v) ↦ subst (IsNewestCode id es) (sym v) (no_event no_event_there)
  | inr (before, after, e, split, of_e, no_more, v) ↦
      subst (λ xs. IsNewestCode id xs (code_of_last none (filter (event_of id) es))) (sym split)
        (subst (IsNewestCode id (before ++ e ∷ after)) (sym v) (newest before after e of_e no_more))
]
