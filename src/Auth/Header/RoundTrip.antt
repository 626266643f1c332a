-- ===== src/Auth/Header/RoundTrip.antt =====
-- The header that a client builds from a name and a password is read back as those.
use atrium_ddns.Auth.Base64.{b64decode}
use atrium_ddns.Prelude.{
  ◌≡◌, refl, false, some, [], ◌∷◌, ◌++◌, All, All-append, arith, ◌∙◌, ap, Option,
}
use atrium_ddns.Text.{
  Text, codes, has_char, strip, partition, lower, partition-append, strip_plain, lower_char,
}
use atrium_ddns.Auth.Base64.RoundTrip.{
  encode as b64encode, b64decode-encode, encode_filled as b64_filled, encode_no_space,
}
use atrium_ddns.Auth.Utf8.RoundTrip.{
  encode as utf8_encode, utf8_decode-encode, encode_bytes, IsScalar, encode_filled as utf8_filled,
}
use atrium_ddns.Auth.Header.{
  parse_basic_auth, parse_header, decode_credentials, is_empty, split_credentials, decode_or_latin1,
}

-- `Basic`, a blank, and the Base64 of the UTF-8 of `user:password`.
pub basic_header : Text → Text → Text
basic_header user password =
    codes "Basic" ++ b' ' ∷ b64encode (utf8_encode (user ++ b':' ∷ password))

filled_text : (user password : Text) → is_empty (user ++ b':' ∷ password) ≡ false
filled_text [] password = refl
filled_text (c ∷ user) password = refl

parse_basic_auth_lem :
    (user password : Text)
    → parse_basic_auth (some (basic_header user password))
      ≡ parse_header (codes "Basic" ++ b' ' ∷ b64encode (utf8_encode (user ++ b':' ∷ password)))
unfolding parse_basic_auth basic_header
parse_basic_auth_lem user password = refl

split_text :
    (user password : Text)
    → has_char b':' user ≡ false
    → split_credentials (user ++ b':' ∷ password)
      ≡ some (record { username = user; password = password })
split_text user password colon = rw (partition-append b':' user password colon)

scalars :
    (user password : Text)
    → All IsScalar user
    → All IsScalar password
    → All IsScalar (user ++ b':' ∷ password)
scalars user password hu hp =
    All-append IsScalar user (b':' ∷ password) hu (IsScalar.low (omega arith), hp)

-- The steps of the parse, each by the law of its part.
read_token :
    (token : Text)
    → is_empty token ≡ false
    → parse_header (codes "Basic" ++ b' ' ∷ token) ≡ decode_credentials (b64decode (strip token))
unfolding parse_header partition lower lower_char b64decode
read_token token h = rw h

-- A name without a colon and a password, both without surrogates, come back from the header that a
-- client builds of them (RFC 7617, with UTF-8).
pub parse_basic_auth-basic_header :
    (user password : Text)
    → All IsScalar user
    → All IsScalar password
    → has_char b':' user ≡ false
    → parse_basic_auth (some (basic_header user password))
      ≡ some (record { username = user; password = password })
parse_basic_auth-basic_header user password hu hp colon =
    let text = user ++ b':' ∷ password in
    let raw = utf8_encode text in
    let plain = scalars user password hu hp in
    let bytes = encode_bytes text plain in
    let filled = b64_filled raw (utf8_filled text (filled_text user password)) in
    parse_basic_auth_lem user password
    ∙ read_token (b64encode raw) filled
    ∙ ap (λ (t : Text). decode_credentials (b64decode t))
        (strip_plain (b64encode raw) (encode_no_space raw bytes))
    ∙ ap decode_credentials (b64decode-encode raw bytes)
    ∙ ap (λ (d : Option Text). split_credentials (decode_or_latin1 d raw))
        (utf8_decode-encode text plain)
    ∙ split_text user password colon
