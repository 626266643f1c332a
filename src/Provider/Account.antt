-- ===== src/Provider/Account.antt =====
-- `ProviderAccount` and the state of a `BaseProvider`, with `has_credentials` and `rtypes_for`.
use atrium_ddns.Prelude.{Bool, true, false, not, Option, none, some, List, [], ◌∷◌, ◌==◌, all}
use atrium_ddns.Prelude.Int.{ℤ, pos, negsuc}
use atrium_ddns.Text.{Text, is_empty}
use atrium_ddns.Dict.{Dict, get, put}
use atrium_ddns.Address.{RecordType, a, aaaa}

-- A value of a JSON column, as far as the program reads it: of a list or an object it asks only
-- whether it has elements, and of a fractional number its integer part.
pub data Json : Type 0 where
  null : Json
  bool : Bool → Json
  num : ℤ → Json
  fraction : ℤ → Json
  str : Text → Json
  container : Bool → Json

-- Python's truth value.
abbrev pub truthy : Json → Bool
truthy null = false
truthy (bool b) = b
truthy (num (pos n)) = not (n == 0)
truthy (num (negsuc n)) = true
truthy (fraction n) = true
truthy (str s) = not (is_empty s)
truthy (container filled) = filled

pub record Account : Type 0 where
  pub service : Text
  pub domains : List Text
  pub credentials : Dict Json
  pub config : Dict Json
  pub id : Text

-- `BaseProvider`: the zones map a configured domain to the provider's handle for its zone, and the
-- zone names to the name of the hosted zone.
pub record Provider : Type 0 where
  pub account : Account
  pub resolvers : List Text
  pub zones : Dict Text
  pub api_zone_names : Dict Text

-- `{domain: domain for domain in account.domains}`.
unfoldable pub seeded : Dict Text → List Text → Dict Text
seeded d [] = d
seeded d (domain ∷ domains) = seeded (put d domain domain) domains

-- `BaseProvider.__init__` up to zone discovery.
unfoldable pub seed : Account → List Text → Provider
unfolding seeded
seed account resolvers = record {
  account = account;
  resolvers = resolvers;
  zones = seeded [] account.domains;
  api_zone_names = seeded [] account.domains;
}

abbrev pub truthy_at : Dict Json → Text → Bool
truthy_at d key = elim (get d key) [ none ↦ false | some v ↦ truthy v ]

-- `all(creds.get(key) for key in self.REQUIRED_CREDENTIALS)`.
unfoldable pub has_credentials : List Text → Dict Json → Bool
has_credentials required credentials = all (truthy_at credentials) required

-- `rtypes_for`: one family, or both, A first.
abbrev pub rtypes_for : Option RecordType → List RecordType
rtypes_for (some rtype) = rtype ∷ []
rtypes_for none = a ∷ aaaa ∷ []
