-- ===== src/Auth/Password.antt =====
-- `_verify_sync`: the password check. The hashing library is a parameter.
use atrium_ddns.Prelude.{ℕ, Bool, false, not, ◌&&◌, ◌||◌, Option, none, ltb, if◌then◌else◌}
use atrium_ddns.Text.{Text, codes, is_empty, starts_with}
use atrium_ddns.Auth.Utf8.{utf8_length}

-- What `verify_and_update(presented, stored)` of pwdlib does: a verdict and perhaps a new hash, or
-- one of the exceptions that the caller catches.
pub data Verification : Type 0 where
  verdict : Bool → Option Text → Verification
  unknown_hash value_error : Verification

pub record Hasher : Type 0 where
  pub verify_and_update : Text → Text → Verification

abbrev bcrypt_max_bytes : ℕ
bcrypt_max_bytes = 72

abbrev answer : Verification → Bool × Option Text
answer (verdict verified upgraded) = (verified, upgraded)
answer unknown_hash = (false, none)
answer value_error = (false, none)

-- Every failure is an answer; nothing is raised.
unfoldable pub verify_password : Hasher → Text → Text → Bool × Option Text
verify_password hasher stored presented =
    if is_empty stored || is_empty presented
    then (false, none)
    else if ltb bcrypt_max_bytes (utf8_length presented)
        && not (starts_with (codes "$argon2") stored)
    then (false, none)
    else answer (hasher.verify_and_update presented stored)
