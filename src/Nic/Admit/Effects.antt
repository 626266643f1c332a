-- ===== src/Nic/Admit/Effects.antt =====
-- What admission does not depend on, and what it leaves.
use atrium_ddns.Prelude.{◌≡◌, refl, Bool, true, false, Option, ◌∙◌, inl, inr, ap}
use atrium_ddns.Text.{Text}
use atrium_ddns.Status.{EventType}
use atrium_ddns.Store.{Tables}
use atrium_ddns.Auth.Header.{Request, parse_basic_auth}
use atrium_ddns.Auth.Device.{DeviceAuth, AuthResult, verified, failed, authenticate_device}
use atrium_ddns.Auth.RateLimit.{check_rate_limit}
use atrium_ddns.Auth.RateLimit.Window.{check_rate_limit_lem}
use atrium_ddns.Auth.Device.Attribution.{apart_from_callers, authenticate_device-apart_from_callers}
use atrium_ddns.Nic.Events.{record_event}
use atrium_ddns.Nic.Admit.{Env, admit, admit_result, admit_charged, touch_device, ℤ, Instant}

-- The same surroundings, but for the database's answer to the commit.
abbrev pub with_commit : Bool → Env → Env
with_commit b env = record env { commits = b }

admit_charged_outside :
    (b : Bool) (env : Env) (event_type : EventType) (client_ip : Option Text) (auth : DeviceAuth)
    (r : Bool × Tables)
    → admit_charged (with_commit b env) event_type client_ip auth r
      ≡ admit_charged env event_type client_ip auth r
admit_charged_outside b env event_type client_ip auth (true, t) = refl
admit_charged_outside b env event_type client_ip auth (false, t) = refl

admit_result_outside :
    (b : Bool) (env : Env) (request : Request) (event_type : EventType) (client_ip : Option Text)
    (r : AuthResult × Tables)
    → admit_result (with_commit b env) request event_type client_ip r
      ≡ admit_result env request event_type client_ip r
admit_result_outside b env request event_type client_ip (failed f, t) = refl
admit_result_outside b env request event_type client_ip (verified auth, t) =
    let touched = touch_device env.clock.seen request client_ip auth t in
    admit_charged_outside b env event_type client_ip touched.0
      (check_rate_limit touched.0 env.config.rate_limit_per_minute env.clock.charged touched.1)

pub admit_outside :
    (b : Bool) (env : Env) (request : Request) (event_type : EventType) (client_ip : Option Text)
    (t : Tables)
    → admit (with_commit b env) request event_type client_ip t
      ≡ admit env request event_type client_ip t
unfolding admit
admit_outside b env request event_type client_ip t =
    admit_result_outside b env request event_type client_ip
      (authenticate_device env.same_text env.hasher t (parse_basic_auth request.authorization))

-- Admission changes devices, the rows of the rate limit and the log at most.
pub check_rate_limit_apart :
    (auth : DeviceAuth) (n : ℤ) (m : Instant) (t : Tables)
    → apart_from_callers (check_rate_limit auth n m t).1 ≡ apart_from_callers t
check_rate_limit_apart auth n m t = elim (check_rate_limit_lem auth n m t) [
  | inl (_, e) ↦ rw e refl
  | inr (_, e) ↦ rw e refl
]

admit_charged_apart :
    (env : Env) (event_type : EventType) (client_ip : Option Text) (auth : DeviceAuth)
    (r : Bool × Tables)
    → apart_from_callers (admit_charged env event_type client_ip auth r).1 ≡ apart_from_callers r.1
unfolding record_event
admit_charged_apart env event_type client_ip auth (true, t) = refl
admit_charged_apart env event_type client_ip auth (false, t) = refl

admit_result_apart :
    (env : Env) (request : Request) (event_type : EventType) (client_ip : Option Text)
    (r : AuthResult × Tables)
    → apart_from_callers (admit_result env request event_type client_ip r).1
      ≡ apart_from_callers r.1
unfolding record_event touch_device
admit_result_apart env request event_type client_ip (failed f, t) = refl
admit_result_apart env request event_type client_ip (verified auth, t) =
    let touched = touch_device env.clock.seen request client_ip auth t in
    let charged =
      check_rate_limit touched.0 env.config.rate_limit_per_minute env.clock.charged touched.1 in
    admit_charged_apart env event_type client_ip touched.0 charged
    ∙ check_rate_limit_apart touched.0 env.config.rate_limit_per_minute env.clock.charged touched.1

pub admit-apart_from_callers :
    (env : Env) (request : Request) (event_type : EventType) (client_ip : Option Text) (t : Tables)
    → apart_from_callers (admit env request event_type client_ip t).1 ≡ apart_from_callers t
unfolding admit
admit-apart_from_callers env request event_type client_ip t =
    admit_result_apart env request event_type client_ip
      (authenticate_device env.same_text env.hasher t (parse_basic_auth request.authorization))
    ∙ authenticate_device-apart_from_callers env.same_text env.hasher t
        (parse_basic_auth request.authorization)

pub admit-hostnames :
    (env : Env) (request : Request) (event_type : EventType) (client_ip : Option Text) (t : Tables)
    → (admit env request event_type client_ip t).1.hostnames ≡ t.hostnames
admit-hostnames env request event_type client_ip t =
    ap (λ (u : Tables). u.hostnames) (admit-apart_from_callers env request event_type client_ip t)
