-- ===== src/Worker/Devices/Board.antt =====
-- What the status board shows for a device.
use atrium_ddns.Prelude.{
  ℕ, zero, suc, ◌≡◌, ◌↔◌, ◌∙◌, inl, inr, refl, sym, ap, not, true, false, Option, none, some,
  Bool-cases, arith, ◌==◌,
}
use atrium_ddns.Text.{Text, codes, decimal, decimal-zero}
use mathlib.Core.Option.{some_inj}
use atrium_ddns.Status.{Status, good, nochg, is_settled}
use atrium_ddns.Store.{Tables, Device, Instant}
use atrium_ddns.Scope.{DdnsScope}
use atrium_ddns.Worker.Summary.{Liveness, never_seen, last_call_failed, idle, active}
use atrium_ddns.Worker.Devices.Log.{
  IsNewestCode, IsTotal, IsSuccess, has_settled-cases, last_code-IsNewestCode, window_count-IsTotal,
}
use atrium_ddns.Worker.Devices.{
  select_events, DeviceStatus, render_updates, device_status, judge_device, last_code, window_count,
  failed_code,
}

-- The code of a call that failed.
pub record IsFailure (code : Option Status) : Type 0 where
  pub status : Status
  pub read : code ≡ some status
  pub not_good : ¬ (status ≡ good)
  pub not_nochg : ¬ (status ≡ nochg)

failed_code-IsFailure : (code : Option Status) → failed_code code ≡ true → IsFailure code
failed_code-IsFailure none h = absurd (cc h)
failed_code-IsFailure (some status) h = record {
  status = status;
  read = refl;
  not_good = λ e. absurd (cc (h, e));
  not_nochg = λ e. absurd (cc (h, e));
}

not_failed : (code : Option Status) → failed_code code ≡ false → ¬ IsFailure code
not_failed none h f = absurd (cc f.read)
not_failed (some status) h f = elim (Bool-cases (is_settled status)) [
  | inl e ↦ elim (has_settled-cases (some status) e) [
    | inl g ↦ f.not_good (some_inj.0 (sym f.read ∙ g))
    | inr n ↦ f.not_nochg (some_inj.0 (sym f.read ∙ n))
  ]
  | inr e ↦ absurd (cc (h, ap not e))
]

-- What the board says of a device: the state, and what is shown for it.
pub data IsShown : Option Instant → Option Status → ℕ → Liveness → Text → Type 0 where
  shows_never : {code : Option Status} {n : ℕ} → IsShown none code n never_seen (codes "—")
  shows_failed :
      {at : Instant} {code : Option Status} {n : ℕ}
      → IsFailure code
      → IsShown (some at) code n last_call_failed (codes "error")
  shows_idle :
      {at : Instant} {code : Option Status}
      → ¬ IsFailure code
      → IsShown (some at) code 0 idle (codes "0")
  shows_active :
      {at : Instant} {code : Option Status} {n : ℕ}
      → ¬ IsFailure code
      → IsShown (some at) code (suc n) active (decimal (suc n))

abbrev shown_of :
    DdnsScope → Tables → Instant → ℕ → Device → Option Instant → Option Status → ℕ → DeviceStatus
shown_of scope t now window_days d seen code count = record {
  device_id = d.id;
  user_id = d.user_id;
  device_name = d.name;
  liveness = (judge_device seen code count).0;
  last_seen_at = seen;
  last_response_code = code;
  updates_in_window = (judge_device seen code count).1;
  window_days = window_days;
}

shown_of-IsShown :
    (scope : DdnsScope) (t : Tables) (now : Instant) (window_days : ℕ) (d : Device)
    (seen : Option Instant) (code : Option Status) (count : ℕ)
    → let s = shown_of scope t now window_days d seen code count in
      IsShown seen code count s.liveness (render_updates s)
unfolding render_updates decimal
shown_of-IsShown scope t now window_days d none code count = shows_never
shown_of-IsShown scope t now window_days d (some at) code zero =
    elim (Bool-cases (failed_code code)) [
      | inl e ↦ rw e (shows_failed (failed_code-IsFailure code e))
      | inr e ↦ rw e (shows_idle (not_failed code e))
    ]
shown_of-IsShown scope t now window_days d (some at) code (suc n) =
    elim (Bool-cases (failed_code code)) [
      | inl e ↦ rw e (shows_failed (failed_code-IsFailure code e))
      | inr e ↦
          let seen : (suc n == 0) ≡ false = ground arith in
          rw (e, seen) (shows_active (not_failed code e))
    ]

IsShown-zero :
    {seen : Option Instant} {code : Option Status} {n : ℕ} {l : Liveness} {shown : Text}
    → IsShown seen code n l shown
    → (shown ≡ codes "0") ↔ (l ≡ idle)
IsShown-zero shows_never = (λ h. cc h, λ h. cc h)
IsShown-zero (shows_failed e) = (λ h. cc h, λ h. cc h)
IsShown-zero (shows_idle e) = (λ h. refl, λ h. refl)
IsShown-zero (shows_active {n = n} e) = (λ h. absurd (decimal-zero n h), λ h. cc h)

-- A device that was never seen is shown as a dash. Of any other the visible events decide: it is shown as
-- "error" when its newest event has a code other than good and nochg, and else by the number of its updates
-- of the last `window_days` days that were good or nochg, as idle when there is none. Only an idle device is
-- shown as "0".
pub device_status-IsShown :
    (scope : DdnsScope) (t : Tables) (now : Instant) (window_days : ℕ) (d : Device)
    → let s = device_status scope t now window_days d in
      (code : Option Status) × (n : ℕ) × IsNewestCode d.id (select_events scope t) code
      × IsTotal (IsSuccess now window_days d.id) (select_events scope t) n
      × IsShown d.last_seen_at code n s.liveness (render_updates s)
      × ((render_updates s ≡ codes "0") ↔ (s.liveness ≡ idle))
unfolding device_status last_code window_count
device_status-IsShown scope t now window_days d =
    let code = last_code scope t d.id in
    let count = window_count scope t now window_days d.id in
    let shown = shown_of-IsShown scope t now window_days d d.last_seen_at code count in
    (
      code,
      count,
      last_code-IsNewestCode d.id (select_events scope t),
      window_count-IsTotal now window_days d.id (select_events scope t),
      shown,
      IsShown-zero shown,
    )
