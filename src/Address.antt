-- ===== src/Address.antt =====
-- `ipaddress.ip_address` and `str` of its result, with the two functions of the program that rest
-- on them: `normalise_address` (backend/src/atrium_ddns/auth_device.py), and `getip` and `getiptype`
-- (backend/src/atrium_ddns/providers/base.py).
pub mod V4
mod V6
pub mod RoundTrip
pub use V4.{Octets, IsOctets}
unfoldable pub use V4.{parse_octet, parse_v4, print_v4}
unfoldable pub use V6.{parse_hextet, parse_v6, print_v6}
use atrium_ddns.Prelude.{ℕ, Option, none, some, List, ◌||◌, ◌++◌, ◌∷◌, ◌>>=◌, if◌then◌else◌}
use atrium_ddns.Text.{Text, is_empty, partition, has_char}

-- The hextets of an IPv6 address are eight, the most significant first.
pub data Address : Type 0 where
  v4 : Octets → Address
  v6 : List ℕ → Option Text → Address

-- `ip_str.partition('%')`: an empty scope and a scope with a second `%` are refused.
split_scope : Text → Option (Text × Option Text)
unfolding partition
split_scope s =
    let parts = partition b'%' s in
    if parts.1
    then (if is_empty parts.2 || has_char b'%' parts.2 then none else some (parts.0, some parts.2))
    else some (parts.0, none)

parse_scoped : Text → Option Address
unfolding split_scope parse_v6
parse_scoped s = do parts ← split_scope s; hextets ← parse_v6 parts.0; some (v6 hextets parts.1)

abbrev v4_or : Option Octets → Option Address → Option Address
v4_or (some o) other = some (v4 o)
v4_or none other = other

-- `ipaddress.ip_address(s)`: IPv4 first, then IPv6; `none` is the `ValueError`. Both refuse a `/`.
unfoldable pub ip_address : Text → Option Address
unfolding parse_scoped parse_v4
ip_address s = if has_char b'/' s then none else v4_or (parse_v4 s) (parse_scoped s)

abbrev with_scope : Text → Option Text → Text
with_scope s none = s
with_scope s (some scope) = s ++ b'%' ∷ scope

-- `str(address)`.
unfoldable pub print_address : Address → Text
unfolding print_v4 print_v6
print_address (v4 o) = print_v4 o
print_address (v6 hextets scope) = with_scope (print_v6 hextets) scope

-- `normalise_address(value)` of a text: the empty text and every text that is no address are `None`.
unfoldable pub normalise_address : Text → Option Text
unfolding ip_address print_address
normalise_address value =
    if is_empty value then none else (do address ← ip_address value; some (print_address address))

-- `BaseProvider.getip`; `none` is the sentinel `False`.
unfoldable pub getip : Text → Option Address
unfolding ip_address
getip ip = ip_address ip

-- The record types, `RTYPE_A` and `RTYPE_AAAA`.
pub data RecordType : Type 0 where
  a aaaa : RecordType

abbrev pub family : Address → RecordType
family (v4 o) = a
family (v6 hextets scope) = aaaa

-- `BaseProvider.getiptype`.
unfoldable pub getiptype : Text → Option RecordType
unfolding getip
getiptype ip = do address ← getip ip; some (family address)
