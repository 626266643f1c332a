-- ===== src/Auth/Base64/RoundTrip.antt =====
-- What a client encodes by RFC 4648 is decoded again.
use atrium_ddns.Prelude.{
  ℕ, ◌+◌, ◌-◌, ◌*◌, ◌/◌, ◌%◌, ◌<◌, ◌≡◌, refl, Bool, true, false, ◌&&◌, not, some, List, [], ◌∷◌,
  ◌==◌, ltb, arith, All, all_below, all_below_sound, if◌then◌else◌,
}
use atrium_ddns.Text.{Text, is_space}
use atrium_ddns.Auth.Base64.{value, b64decode, is_empty}

-- The alphabet of RFC 4648.
pub digit : ℕ → ℕ
digit v =
    if ltb v 26
    then v + 65
    else if ltb v 52
    then v + 71
    else if ltb v 62
    then v - 4
    else if v == 62
    then b'+'
    else b'/'

pub encode : List ℕ → Text
encode [] = []
encode (x ∷ []) = digit (x / 4) ∷ digit ((x % 4) * 16) ∷ b'=' ∷ b'=' ∷ []
encode (x ∷ y ∷ []) =
    digit (x / 4) ∷ digit ((x % 4) * 16 + y / 16) ∷ digit ((y % 16) * 4) ∷ b'=' ∷ []
encode (x ∷ y ∷ z ∷ s) =
    digit (x / 4)
    ∷ digit ((x % 4) * 16 + y / 16)
    ∷ digit ((y % 16) * 4 + z / 64)
    ∷ digit (z % 64)
    ∷ encode s

and_false : (b : Bool) → (b && false) ≡ false
and_false true = refl
and_false false = refl

record IsDigit (v : ℕ) : Type 0 where
  reads : value (digit v) ≡ some v
  no_pad : (digit v == b'=') ≡ false

digit_lem : (v : ℕ) → v < 64 → IsDigit v
unfolding digit value
digit_lem v h = record { reads = ground arith; no_pad = ground arith }

pub b64decode-encode :
    (bytes : List ℕ) → All (λ b. b < 256) bytes → b64decode (encode bytes) ≡ some bytes
unfolding b64decode encode
b64decode-encode [] h = refl
b64decode-encode (x ∷ []) h =
    let p = digit_lem (x / 4) (omega arith) in
    let q = digit_lem ((x % 4) * 16) (omega arith) in
    let e : x / 4 * 4 + (x % 4) * 16 / 16 ≡ x = omega arith in rw (p.reads, q.reads) (cc e)
b64decode-encode (x ∷ y ∷ []) h =
    let p = digit_lem (x / 4) (omega arith) in
    let q = digit_lem ((x % 4) * 16 + y / 16) (omega arith) in
    let r = digit_lem ((y % 16) * 4) (omega arith) in
    let e : x / 4 * 4 + ((x % 4) * 16 + y / 16) / 16 ≡ x = omega arith in
    let f : (((x % 4) * 16 + y / 16) % 16) * 16 + (y % 16) * 4 / 4 ≡ y = omega arith in
    rw (r.no_pad, p.reads, q.reads, r.reads) (cc (e, f))
b64decode-encode (x ∷ y ∷ z ∷ s) h =
    let p = digit_lem (x / 4) (omega arith) in
    let q = digit_lem ((x % 4) * 16 + y / 16) (omega arith) in
    let r = digit_lem ((y % 16) * 4 + z / 64) (omega arith) in
    let t = digit_lem (z % 64) (omega arith) in
    let e : x / 4 * 4 + ((x % 4) * 16 + y / 16) / 16 ≡ x = omega arith in
    let f : (((x % 4) * 16 + y / 16) % 16) * 16 + ((y % 16) * 4 + z / 64) / 4 ≡ y = omega arith in
    let g : (((y % 16) * 4 + z / 64) % 4) * 64 + z % 64 ≡ z = omega arith in
    rw (t.no_pad, and_false, p.reads, q.reads, r.reads, t.reads, b64decode-encode s h.1.1.1)
      (cc (e, f, g))

digit_space_table : all_below 64 (λ v. not (is_space (digit v))) ≡ true
unfolding digit is_space
digit_space_table = refl

digit_no_space : (v : ℕ) → v < 64 → is_space (digit v) ≡ false
digit_no_space v h =
    let t : not (is_space (digit v)) ≡ true =
      all_below_sound 64 (λ v. not (is_space (digit v))) v digit_space_table h in
    ground arith

pad_no_space : is_space b'=' ≡ false
unfolding is_space
pad_no_space = refl

pub encode_no_space :
    (bytes : List ℕ) → All (λ b. b < 256) bytes → All (λ c. is_space c ≡ false) (encode bytes)
unfolding encode
encode_no_space [] h = tt
encode_no_space (x ∷ []) h = (
  digit_no_space (x / 4) (omega arith),
  (digit_no_space ((x % 4) * 16) (omega arith), (pad_no_space, (pad_no_space, tt))),
)
encode_no_space (x ∷ y ∷ []) h = (
  digit_no_space (x / 4) (omega arith),
  (
    digit_no_space ((x % 4) * 16 + y / 16) (omega arith),
    (digit_no_space ((y % 16) * 4) (omega arith), (pad_no_space, tt)),
  ),
)
encode_no_space (x ∷ y ∷ z ∷ s) h = (
  digit_no_space (x / 4) (omega arith),
  (
    digit_no_space ((x % 4) * 16 + y / 16) (omega arith),
    (
      digit_no_space ((y % 16) * 4 + z / 64) (omega arith),
      (digit_no_space (z % 64) (omega arith), encode_no_space s h.1.1.1),
    ),
  ),
)

pub encode_filled : (bytes : List ℕ) → is_empty bytes ≡ false → is_empty (encode bytes) ≡ false
unfolding encode
encode_filled [] h = cc
encode_filled (b ∷ []) h = refl
encode_filled (b ∷ c ∷ []) h = refl
encode_filled (b ∷ c ∷ d ∷ s) h = refl
