-- ===== src/Auth/Device/Attribution.antt =====
-- Whom an attempt to authenticate is attributed to, and what it changes.
use atrium_ddns.Prelude.{
  ◌≡◌, inl, inr, refl, All, List, ◌∷◌, Bool, true, false, Option, none, some, IsIn, find?,
  find?-some, ◌==◌, ==_iff, ◌||◌, Option-cases, Bool-cases, subst, sym, [],
}
use mathlib.Core.Option.{some_inj}
use atrium_ddns.Text.{Text, is_empty}
use atrium_ddns.Store.{Tables, User, Device}
use atrium_ddns.Auth.Header.{BasicCredentials}
use atrium_ddns.Auth.Password.{Hasher, verify_password}
use atrium_ddns.Auth.Device.{
  absent, unknown_username, bad_password, inactive_owner, AuthResult, verified, device_with_owner,
  authenticate_device, judge, decide_row, unattributed, attributed, rehashed,
}

-- A device of the table with this username, and its owner.
pub record IsResolved (same_text : Text → Text → Bool) (t : Tables) (username : Text)
    (device : Device) (user : User) : Type 0 where
  pub listed : IsIn device t.devices
  pub named : same_text device.username username ≡ true
  pub owner_listed : IsIn user t.users
  pub owned : user.id ≡ device.user_id

resolve :
    (same_text : Text → Text → Bool) (t : Tables) (username : Text) (device : Device) (user : User)
    → device_with_owner same_text t username ≡ some (device, user)
    → IsResolved same_text t username device user
resolve same_text t username device user h =
    elim (Option-cases (find? (λ d. same_text d.username username) t.devices)) [
      | inl e ↦ absurd (cc (rw e at h))
      | inr (d, e) ↦ elim (Option-cases (find? (λ u. u.id == d.user_id) t.users)) [
        | inl f ↦ absurd (cc (rw (e, f) at h))
        | inr (u, f) ↦
            let q : (d, u) ≡ (device, user) = some_inj.0 (rw (e, f) at h) in
            subst (λ r. IsResolved same_text t username r.0 r.1) q
              (record {
                listed = (find?-some (λ d. same_text d.username username) t.devices e).1;
                named = (find?-some (λ d. same_text d.username username) t.devices e).0;
                owner_listed = (find?-some (λ u. u.id == d.user_id) t.users f).1;
                owned = (==_iff u.id d.user_id).0 (find?-some (λ u. u.id == d.user_id) t.users f).0;
              })
      ]
    ]

-- No device has this username, or the one that has it is of a user who is not in the table.
pub data IsUnresolved (same_text : Text → Text → Bool) (t : Tables) (username : Text) : Type 0 where
  unnamed :
      All (λ d. same_text d.username username ≡ false) t.devices → IsUnresolved same_text t username
  orphaned :
      (device : Device)
      → IsIn device t.devices
      → same_text device.username username ≡ true
      → All (λ u. (u.id == device.user_id) ≡ false) t.users
      → IsUnresolved same_text t username

not_found :
    {A : Type 0} (p : A → Bool) (xs : List A) → find? p xs ≡ none → All (λ x. p x ≡ false) xs
not_found p [] h = tt
not_found p (x ∷ xs) h = elim (Bool-cases (p x)) [
  | inl e ↦ absurd (cc (rw e at h))
  | inr e ↦ (e, not_found p xs (rw e at h))
]

unresolve :
    (same_text : Text → Text → Bool) (t : Tables) (username : Text)
    → device_with_owner same_text t username ≡ none
    → IsUnresolved same_text t username
unresolve same_text t username h =
    elim (Option-cases (find? (λ d. same_text d.username username) t.devices)) [
      | inl e ↦ unnamed (not_found (λ d. same_text d.username username) t.devices e)
      | inr (d, e) ↦ elim (Option-cases (find? (λ u. u.id == d.user_id) t.users)) [
        | inl f ↦
            let (named, listed) =
              find?-some (λ d. same_text d.username username) t.devices {a = d} e in
            orphaned d listed named (not_found (λ u. u.id == d.user_id) t.users f)
        | inr (u, f) ↦ absurd (cc (rw (e, f) at h))
      ]
    ]

-- A half of the credentials is empty.
abbrev pub is_blank : BasicCredentials → Bool
is_blank c = is_empty c.username || is_empty c.password

-- What an attempt to authenticate against these tables comes to.
pub data IsJudged (same_text : Text → Text → Bool) (hasher : Hasher) (t : Tables)
    : Option BasicCredentials → AuthResult → Type 0 where
  -- No credentials: nobody is named.
  silent : IsJudged same_text hasher t none (unattributed absent)
  -- An empty half: nobody is named either.
  half_empty :
      {c : BasicCredentials}
      → is_blank c ≡ true
      → IsJudged same_text hasher t (some c) (unattributed absent)
  -- A username that no device of the table has, or only one without an owner in the table.
  unknown :
      {c : BasicCredentials}
      → is_blank c ≡ false
      → IsUnresolved same_text t c.username
      → IsJudged same_text hasher t (some c) (unattributed unknown_username)
  -- A device's username with a wrong password.
  mistaken :
      {c : BasicCredentials} {device : Device} {user : User}
      → is_blank c ≡ false
      → IsResolved same_text t c.username device user
      → (verify_password hasher device.password_hash c.password).0 ≡ false
      → IsJudged same_text hasher t (some c) (attributed bad_password device user)
  -- The right password, of a device whose owner is not active.
  inactive :
      {c : BasicCredentials} {device : Device} {user : User}
      → is_blank c ≡ false
      → IsResolved same_text t c.username device user
      → (verify_password hasher device.password_hash c.password).0 ≡ true
      → user.is_active ≡ false
      → IsJudged same_text hasher t (some c) (
          attributed inactive_owner
            (rehashed device (verify_password hasher device.password_hash c.password).1)
            user)
  -- The right password and an active owner.
  proven :
      {c : BasicCredentials} {device : Device} {user : User}
      → is_blank c ≡ false
      → IsResolved same_text t c.username device user
      → (verify_password hasher device.password_hash c.password).0 ≡ true
      → user.is_active ≡ true
      → IsJudged same_text hasher t (some c) (
          verified (record {
            device = rehashed device (verify_password hasher device.password_hash c.password).1;
            user_id = user.id;
            user_email = user.email;
          }))

judge-IsJudged :
    (same_text : Text → Text → Bool) (hasher : Hasher) (t : Tables) (c : BasicCredentials)
    (device : Device) (user : User)
    → is_blank c ≡ false
    → IsResolved same_text t c.username device user
    → IsJudged same_text hasher t
        (some c)
        (judge t device user (verify_password hasher device.password_hash c.password)).0
judge-IsJudged same_text hasher t c device user filled r =
    let verdict = verify_password hasher device.password_hash c.password in
    elim (Bool-cases verdict.0) [
      | inr wrong ↦
          subst (λ b. IsJudged same_text hasher t (some c) (judge t device user (b, verdict.1)).0)
            (sym wrong) (mistaken filled r wrong)
      | inl right ↦
          subst (λ b. IsJudged same_text hasher t (some c) (judge t device user (b, verdict.1)).0)
            (sym right)
            (elim (Bool-cases user.is_active) [
              | inl active ↦ rw active (proven filled r right active)
              | inr barred ↦ rw barred (inactive filled r right barred)
            ])
    ]

decide_row-IsJudged :
    (same_text : Text → Text → Bool) (hasher : Hasher) (t : Tables) (c : BasicCredentials)
    → is_blank c ≡ false
    → IsJudged same_text hasher t
        (some c)
        (decide_row hasher c.password t (device_with_owner same_text t c.username)).0
decide_row-IsJudged same_text hasher t c filled =
    elim (Option-cases (device_with_owner same_text t c.username)) [
      | inl e ↦ rw e (unknown filled (unresolve same_text t c.username e))
      | inr ((device, user), e) ↦ rw e (
          judge-IsJudged same_text hasher t c device user filled
            (resolve same_text t c.username device user e))
    ]

-- Without credentials, or with an empty half, an attempt is refused as absent and attributed to nobody; with
-- a username that no device has, or only one without an owner in the table, it is refused as unknown and
-- attributed to nobody. With the username of a device of the table a wrong password and an inactive owner are
-- refused and attributed to that device and its owner, and the device is verified when the password is right
-- and the owner is active.
pub authenticate_device-IsJudged :
    (same_text : Text → Text → Bool) (hasher : Hasher) (t : Tables) (c : Option BasicCredentials)
    → IsJudged same_text hasher t c (authenticate_device same_text hasher t c).0
unfolding authenticate_device
authenticate_device-IsJudged same_text hasher t none = silent
authenticate_device-IsJudged same_text hasher t (some c) = elim (Bool-cases (is_blank c)) [
  | inl e ↦ rw e (half_empty e)
  | inr e ↦ rw e (decide_row-IsJudged same_text hasher t c e)
]

-- The tables without what admission may change: the devices, the rate limit's rows and the log.
abbrev pub apart_from_callers : Tables → Tables
apart_from_callers t = record t { devices = []; rate_events = []; events = [] }

judge_apart :
    (t : Tables) (device : Device) (user : User) (b : Bool) (hash : Option Text)
    → apart_from_callers (judge t device user (b, hash)).1 ≡ apart_from_callers t
judge_apart t device user false hash = refl
judge_apart t device user true none = elim (Bool-cases user.is_active) [
  | inl e ↦ rw e refl
  | inr e ↦ rw e refl
]
judge_apart t device user true (some hash) = elim (Bool-cases user.is_active) [
  | inl e ↦ rw e refl
  | inr e ↦ rw e refl
]

decide_row_apart :
    (hasher : Hasher) (password : Text) (t : Tables) (o : Option (Device × User))
    → apart_from_callers (decide_row hasher password t o).1 ≡ apart_from_callers t
decide_row_apart hasher password t none = refl
decide_row_apart hasher password t (some (device, user)) =
    judge_apart t device user (verify_password hasher device.password_hash password).0
      (verify_password hasher device.password_hash password).1

-- An attempt to authenticate changes devices at most.
pub authenticate_device-apart_from_callers :
    (same_text : Text → Text → Bool) (hasher : Hasher) (t : Tables) (c : Option BasicCredentials)
    → apart_from_callers (authenticate_device same_text hasher t c).1 ≡ apart_from_callers t
unfolding authenticate_device
authenticate_device-apart_from_callers same_text hasher t none = refl
authenticate_device-apart_from_callers same_text hasher t (some c) =
    elim (Bool-cases (is_empty c.username || is_empty c.password)) [
      | inl e ↦ rw e refl
      | inr e ↦
          rw e (decide_row_apart hasher c.password t (device_with_owner same_text t c.username))
    ]
