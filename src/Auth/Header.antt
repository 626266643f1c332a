-- ===== src/Auth/Header.antt =====
-- `parse_basic_auth` and `client_address`, and what a request brings.
pub mod RoundTrip
use atrium_ddns.Prelude.{ℕ, not, ◌||◌, Option, none, some, List, [], or_default, if◌then◌else◌}
use atrium_ddns.Text.{Text, codes, text_eq, is_empty, partition, lower, strip, split_last}
use atrium_ddns.Address.{normalise_address}
use atrium_ddns.Auth.Base64.{b64decode}
use atrium_ddns.Auth.Utf8.{utf8_decode}

-- The headers, the query parameters and the socket peer that the handlers read.
pub record Request : Type 0 where
  pub authorization : Option Text
  pub forwarded_for : Option Text
  pub user_agent : Option Text
  pub client_host : Option Text
  pub hostname : Option Text
  pub myip : Option Text
  pub format : Option Text

pub record BasicCredentials : Type 0 where
  pub username : Text
  pub password : Text

-- UTF-8, or else Latin-1, where every byte is its own code point.
abbrev decode_or_latin1 : Option Text → List ℕ → Text
decode_or_latin1 (some s) raw = s
decode_or_latin1 none raw = raw

abbrev split_credentials : Text → Option BasicCredentials
split_credentials decoded =
    let parts = partition b':' decoded in
    if parts.1 then some (record { username = parts.0; password = parts.2 }) else none

abbrev decode_credentials : Option (List ℕ) → Option BasicCredentials
decode_credentials none = none
decode_credentials (some raw) = split_credentials (decode_or_latin1 (utf8_decode raw) raw)

parse_header : Text → Option BasicCredentials
parse_header header =
    let parts = partition b' ' header in
    if not (text_eq (lower parts.0) (codes "basic")) || is_empty parts.2
    then none
    else decode_credentials (b64decode (strip parts.2))

-- An empty header is no header.
unfoldable pub parse_basic_auth : Option Text → Option BasicCredentials
unfolding parse_header
parse_basic_auth none = none
parse_basic_auth (some header) = if is_empty header then none else parse_header header

-- The rightmost element of the forwarding header if it has any text, else the socket peer.
unfoldable pub client_candidate : Request → Text
client_candidate request =
    let peer = or_default request.client_host [] in
    elim request.forwarded_for [
      | none ↦ peer
      | some forwarded ↦
          if is_empty (strip forwarded) then peer else strip (split_last b',' forwarded)
    ]

unfoldable pub client_address : Request → Option Text
unfolding client_candidate
client_address request = normalise_address (client_candidate request)
