-- ===== src/Tests/Names.antt =====
-- Host names, zones, registrations and addresses.
use atrium_ddns.Resolvers.{normalise_resolvers, canonical, normalise_from}
use atrium_ddns.Resolvers.Complete.{IsServed, normalise_resolvers-IsServed}
use atrium_ddns.Address.{ip_address, print_address}
use atrium_ddns.Text.{strip, is_space}
use atrium_ddns.Text.{starts_with, rfind, lower_char, Text, codes, split_on, lower, ends_with}
use atrium_ddns.Provider.Account.{seeded, Account, seed}
use atrium_ddns.Provider.Zones.{
  is_reverse_zone, encloses, domaininhostname, bind_domain, closest, hostnameperzone,
  map_domains_to_zones,
}
use atrium_ddns.Prelude.{◌≡◌, ◌↔◌, ◌++◌, refl, true, false, none, some, [], ◌∷◌, All, IsIn, List}
use atrium_ddns.Dict.{Dict}
use atrium_ddns.Address.V4.{Octets}
use atrium_ddns.Hostname.{isvalidhostname, is_label_char}
use atrium_ddns.Hostname.Elements.{IsElement, isvalidhostname_iff}
use atrium_ddns.Zone.{zone_contains}
use atrium_ddns.Zone.Suffix.{zone_contains_iff}
use atrium_ddns.Zone.DottedCapital.{dotted_capital_refused}
use atrium_ddns.Provider.Zones.Closest.{IsHosted, IsCandidate, IsCovered, closest_enclosing}
use atrium_ddns.Provider.Zones.Containment.{adapter_reach}

isvalidhostname_iff_example :
    (isvalidhostname (codes "a.x.org, b") ≡ some (codes "a.x.org" ∷ codes " b" ∷ [])) ↔ (
      (codes "a.x.org" ∷ codes " b" ∷ [] ≡ split_on b',' (codes "a.x.org, b"))
      × All IsElement (codes "a.x.org" ∷ codes " b" ∷ []))
isvalidhostname_iff_example =
    isvalidhostname_iff (codes "a.x.org, b") (codes "a.x.org" ∷ codes " b" ∷ [])

zone_contains_iff_example :
    (zone_contains (codes "X.org") (codes "h.x.ORG") ≡ true)
    ↔ ((pre : Text) × (lower (codes "h.x.ORG") ≡ pre ++ lower (codes "X.org")))
zone_contains_iff_example = zone_contains_iff (codes "X.org") (codes "h.x.ORG") refl refl

dotted_capital_refused_example :
    (is_label_char 0x130 ≡ true)
    × (zone_contains (codes "x.org") ((0x130 ∷ codes ".") ++ codes "x.org") ≡ false)
dotted_capital_refused_example =
    dotted_capital_refused (codes "x.org") (0x130 ∷ codes ".") refl refl

closest_enclosing_example :
    IsHosted
      (codes "org" ∷ codes "x.org" ∷ [])
      (closest (codes "a.x.org") none (codes "org" ∷ codes "x.org" ∷ []))
    × IsCandidate
        (codes "a.x.org")
        (closest (codes "a.x.org") none (codes "org" ∷ codes "x.org" ∷ []))
    × All
        (IsCovered
          (codes "a.x.org")
          (closest (codes "a.x.org") none (codes "org" ∷ codes "x.org" ∷ [])))
        (codes "org" ∷ codes "x.org" ∷ [])
closest_enclosing_example = closest_enclosing (codes "a.x.org") (codes "org" ∷ codes "x.org" ∷ [])

abbrev account : Account
account = record {
  service = codes "stub";
  domains = codes "x.org" ∷ codes "y.org" ∷ [];
  credentials = [];
  config = [];
  id = codes "5";
}

abbrev listed : Dict Text
listed = (codes "x.org", codes "Z1") ∷ (codes "evil.org", codes "Z2") ∷ []

adapter_reach_example :
    IsIn (codes "x.org") account.domains
    × All (λ h. zone_contains (codes "x.org") h ≡ true) (codes "h.x.org" ∷ [])
unfolding hostnameperzone domaininhostname map_domains_to_zones bind_domain closest encloses
    is_reverse_zone seed seeded zone_contains rfind starts_with lower lower_char ends_with
adapter_reach_example =
    adapter_reach account [] listed (codes "h.x.org" ∷ [])
      {grouped = (codes "x.org", codes "h.x.org" ∷ []) ∷ []} (codes "x.org")
      {names = codes "h.x.org" ∷ []} refl refl

abbrev octets : Octets
octets = record { first = 192; second = 0; third = 2; fourth = 33 }

abbrev given : List Text
given = codes " 8.8.8.8 " ∷ codes "" ∷ codes "2001:DB8:0::1" ∷ codes "8.8.8.8" ∷ []

abbrev kept : List Text
kept = codes "8.8.8.8" ∷ codes "2001:db8::1" ∷ []

given-kept : normalise_resolvers given ≡ some kept
unfolding normalise_resolvers normalise_from canonical strip is_space ip_address print_address
given-kept = refl

normalise_resolvers-IsServed_example : All (IsServed kept) given
normalise_resolvers-IsServed_example = normalise_resolvers-IsServed given {result = kept} given-kept
