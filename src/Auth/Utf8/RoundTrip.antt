-- ===== src/Auth/Utf8/RoundTrip.antt =====
-- What a client encodes as UTF-8 is decoded again.
use atrium_ddns.Prelude.{
  ℕ, ◌+◌, ◌*◌, ◌/◌, ◌%◌, ◌<◌, ◌≤◌, ◌≡◌, refl, false, some, List, [], ◌∷◌, ◌++◌, ltb, arith, All,
  if◌then◌else◌, ltb-false, suc, ◌==◌, ◌⊎◌, ltb-true, ◌∙◌, ap, All-append, inl, inr,
}
use native.Mathlib.Decide.{dec_lt}
use atrium_ddns.Text.{Text, is_empty}
use atrium_ddns.Auth.Utf8.{start, more, lead, decode_from, emit, utf8_decode, begins}

-- A code point that is no surrogate.
pub data IsScalar (c : ℕ) : Type 0 where
  low : c < 0xd800 → IsScalar c
  high : 0xe000 ≤ c → c < 0x110000 → IsScalar c

below_or_above : (c : ℕ) → IsScalar c → (c < 0xd800) ⊎ (0xe000 ≤ c)
below_or_above c (low h) = inl h
below_or_above c (high h k) = inr h

scalar_bound : (c : ℕ) → IsScalar c → c < 0x110000
scalar_bound c (low h) = omega arith
scalar_bound c (high h k) = k

unfoldable pub encode_char : ℕ → List ℕ
encode_char c =
    if ltb c 0x80
    then c ∷ []
    else if ltb c 0x800
    then (0xc0 + c / 64) ∷ (0x80 + c % 64) ∷ []
    else if ltb c 0x10000
    then (0xe0 + c / 4096) ∷ (0x80 + c / 64 % 64) ∷ (0x80 + c % 64) ∷ []
    else (0xf0 + c / 262144) ∷ (0x80 + c / 4096 % 64) ∷ (0x80 + c / 64 % 64) ∷ (0x80 + c % 64) ∷ []

pub encode : Text → List ℕ
encode [] = []
encode (c ∷ s) = encode_char c ++ encode s

-- The first bytes of longer characters.
lead_two : (k : ℕ) → 2 ≤ k → k < 32 → lead (0xc0 + k) ≡ begins 0 k 0x80 0xbf
unfolding lead
lead_two k h l = ground arith

three_lo : ℕ → ℕ
three_lo k = if k == 0 then 0xa0 else 0x80

three_hi : ℕ → ℕ
three_hi k = if k == 13 then 0x9f else 0xbf

lead_three : (k : ℕ) → k < 16 → lead (0xe0 + k) ≡ begins 1 k (three_lo k) (three_hi k)
unfolding lead three_lo three_hi
lead_three k h = ground arith

four_lo : ℕ → ℕ
four_lo k = if k == 0 then 0x90 else 0x80

four_hi : ℕ → ℕ
four_hi k = if k == 4 then 0x8f else 0xbf

lead_four : (k : ℕ) → k < 5 → lead (0xf0 + k) ≡ begins 2 k (four_lo k) (four_hi k)
unfolding lead four_lo four_hi
lead_four k h = ground arith

-- A byte inside a character.
inner_last :
    (acc lo hi v : ℕ) (s : List ℕ)
    → v < 64
    → lo ≤ 0x80 + v
    → 0x80 + v ≤ hi
    → decode_from (more 0 acc lo hi) ((0x80 + v) ∷ s) ≡ emit (acc * 64 + v) (decode_from start s)
unfolding decode_from
inner_last acc lo hi v s h l k = let e : (0x80 + v) % 64 ≡ v = omega arith in rw e (ground arith)

inner :
    (n acc lo hi v : ℕ) (s : List ℕ)
    → v < 64
    → lo ≤ 0x80 + v
    → 0x80 + v ≤ hi
    → decode_from (more (suc n) acc lo hi) ((0x80 + v) ∷ s)
      ≡ decode_from (more n (acc * 64 + v) 0x80 0xbf) s
unfolding decode_from
inner n acc lo hi v s h l k = let e : (0x80 + v) % 64 ≡ v = omega arith in rw e (ground arith)

begin_char :
    (b n acc lo hi : ℕ) (s : List ℕ)
    → lead b ≡ begins n acc lo hi
    → decode_from start (b ∷ s) ≡ decode_from (more n acc lo hi) s
unfolding decode_from
begin_char b n acc lo hi s e = rw (e, decode_from)

module _ (c : ℕ) (s : List ℕ) where
  decode-one : c < 0x80 → decode_from start (encode_char c ++ s) ≡ emit c (decode_from start s)
  unfolding decode_from encode_char lead
  decode-one h = ground arith

  decode-two :
      0x80 ≤ c → c < 0x800 → decode_from start (encode_char c ++ s) ≡ emit c (decode_from start s)
  unfolding encode_char
  decode-two h l =
      let k = c / 64 in
      let whole : k * 64 + c % 64 ≡ c = omega arith in
      rw (ltb-false c 0x80 h, ltb-true c 0x800 l)
        (begin_char (0xc0 + k) 0 k 0x80 0xbf _ (lead_two k (omega arith) (omega arith))
          ∙ inner_last k 0x80 0xbf (c % 64) s (omega arith) (omega arith) (omega arith)
          ∙ ap (λ (n : ℕ). emit n (decode_from start s)) whole)

  decode-three :
      0x800 ≤ c
      → c < 0x10000
      → (c < 0xd800) ⊎ (0xe000 ≤ c)
      → decode_from start (encode_char c ++ s) ≡ emit c (decode_from start s)
  unfolding encode_char three_lo three_hi
  decode-three h l scalar =
      let k = c / 4096 in
      let v = c / 64 % 64 in
      let low : three_lo k ≤ 0x80 + v = ground arith in
      let high : 0x80 + v ≤ three_hi k = ground arith in
      let whole : (k * 64 + v) * 64 + c % 64 ≡ c = omega arith in
      rw (ltb-false c 0x80 (omega arith), ltb-false c 0x800 h, ltb-true c 0x10000 l)
        (begin_char (0xe0 + k) 1 k (three_lo k) (three_hi k) _ (lead_three k (omega arith))
          ∙ inner 0 k (three_lo k) (three_hi k) v _ (omega arith) low high
          ∙ inner_last (k * 64 + v) 0x80 0xbf (c % 64) s (omega arith) (omega arith) (omega arith)
          ∙ ap (λ (n : ℕ). emit n (decode_from start s)) whole)

  decode-four :
      0x10000 ≤ c
      → c < 0x110000
      → decode_from start (encode_char c ++ s) ≡ emit c (decode_from start s)
  unfolding encode_char four_lo four_hi
  decode-four h l =
      let k = c / 262144 in
      let v = c / 4096 % 64 in
      let w = c / 64 % 64 in
      let low : four_lo k ≤ 0x80 + v = ground arith in
      let high : 0x80 + v ≤ four_hi k = ground arith in
      let whole : ((k * 64 + v) * 64 + w) * 64 + c % 64 ≡ c = omega arith in
      rw (ltb-false c 0x80 (omega arith), ltb-false c 0x800 (omega arith), ltb-false c 0x10000 h)
        (begin_char (0xf0 + k) 2 k (four_lo k) (four_hi k) _ (lead_four k (omega arith))
          ∙ inner 1 k (four_lo k) (four_hi k) v _ (omega arith) low high
          ∙ inner 0 (k * 64 + v) 0x80 0xbf w _ (omega arith) (omega arith) (omega arith)
          ∙ inner_last ((k * 64 + v) * 64 + w) 0x80 0xbf (c % 64) s (omega arith) (omega arith)
              (omega arith)
          ∙ ap (λ (n : ℕ). emit n (decode_from start s)) whole)

decode-char :
    (c : ℕ) (s : List ℕ)
    → IsScalar c
    → decode_from start (encode_char c ++ s) ≡ emit c (decode_from start s)
decode-char c s scalar = elim (dec_lt c 0x80) [
  | yes one ↦ decode-one c s one
  | no long ↦ elim (dec_lt c 0x800) [
    | yes two ↦ decode-two c s (omega arith) two
    | no longer ↦ elim (dec_lt c 0x10000) [
      | yes three ↦ decode-three c s (omega arith) three (below_or_above c scalar)
      | no longest ↦ decode-four c s (omega arith) (scalar_bound c scalar)
    ]
  ]
]

decode-encode : (s : Text) → All IsScalar s → decode_from start (encode s) ≡ some s
unfolding encode decode_from
decode-encode [] h = refl
decode-encode (c ∷ s) h = decode-char c (encode s) h.0 ∙ ap (emit c) (decode-encode s h.1)

pub utf8_decode-encode : (s : Text) → All IsScalar s → utf8_decode (encode s) ≡ some s
unfolding utf8_decode
utf8_decode-encode s h = decode-encode s h

-- The encoding is made of bytes.
encode_char_bytes : (c : ℕ) → c < 0x110000 → All (λ b. b < 256) (encode_char c)
unfolding encode_char
encode_char_bytes c h = ground arith

pub encode_bytes : (s : Text) → All IsScalar s → All (λ b. b < 256) (encode s)
unfolding encode
encode_bytes [] h = tt
encode_bytes (c ∷ s) h =
    All-append (λ b. b < 256) (encode_char c) (encode s) (encode_char_bytes c (scalar_bound c h.0))
      (encode_bytes s h.1)

encode_char_filled : (c : ℕ) (s : List ℕ) → is_empty (encode_char c ++ s) ≡ false
unfolding encode_char
encode_char_filled c s = ground arith

pub encode_filled : (s : Text) → is_empty s ≡ false → is_empty (encode s) ≡ false
unfolding encode
encode_filled [] h = cc
encode_filled (c ∷ s) h = encode_char_filled c (encode s)
