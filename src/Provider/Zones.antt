-- ===== src/Provider/Zones.antt =====
-- `_map_domains_to_zones`, `_zone_handle`, `relative_name`, `domaininhostname` and
-- `hostnameperzone` of `BaseProvider`.
pub mod Containment
pub mod Closest
pub mod RelativeName
use atrium_ddns.Prelude.{
  Bool, true, false, ◌||◌, Option, none, some, List, [], ◌∷◌, ◌++◌, ◌-◌, ltb, length, take,
  or_default, if◌then◌else◌,
}
use atrium_ddns.Text.{is_empty, Text, text_eq, ends_with, codes}
use atrium_ddns.Dict.{Dict, get, put, keys}
use atrium_ddns.Zone.{zone_contains}
use atrium_ddns.Provider.Account.{Provider}

-- `any(marker in name for marker in _REVERSE_ZONE_MARKERS)`: the text has the marker inside.
has_inside : Text → Text → Bool
has_inside [] marker = text_eq marker []
has_inside (c ∷ s) marker = elim (text_eq (take (length marker) (c ∷ s)) marker) [
  | true ↦ true
  | false ↦ has_inside s marker
]

unfoldable pub is_reverse_zone : Text → Bool
unfolding has_inside
is_reverse_zone name = has_inside name (codes "in-addr.arpa") || has_inside name (codes "ip6.arpa")

-- `domain == api_name or domain.endswith("." + api_name)`.
unfoldable pub encloses : Text → Text → Bool
encloses api_name domain = text_eq domain api_name || ends_with (b'.' ∷ api_name) domain

abbrev longer_than : Text → Option Text → Bool
longer_than api_name none = true
longer_than api_name (some best) = ltb (length best) (length api_name)

-- The inner loop: the longest enclosing name so far.
unfoldable pub closest : Text → Option Text → List Text → Option Text
closest domain best [] = best
closest domain best (api_name ∷ names) =
    closest domain
      (if encloses api_name domain
        then (if longer_than api_name best then some api_name else best)
        else best)
      names

-- One domain of the outer loop: bound to its closest zone, or left as it is.
abbrev pub bind_to : Dict Text → Provider → Text → Option Text → Provider
bind_to api_zones p domain none = p
bind_to api_zones p domain (some best) = record p {
  zones = put p.zones domain (or_default (get api_zones best) best);
  api_zone_names = put p.api_zone_names domain best;
}

unfoldable pub bind_domain : Dict Text → Provider → Text → Provider
bind_domain api_zones p domain = bind_to api_zones p domain (closest domain none (keys api_zones))

bind_domains : Dict Text → Provider → List Text → Provider
bind_domains api_zones p [] = p
bind_domains api_zones p (domain ∷ domains) =
    bind_domains api_zones (bind_domain api_zones p domain) domains

unfoldable pub map_domains_to_zones : Provider → Dict Text → Provider
unfolding bind_domains
map_domains_to_zones p api_zones = bind_domains api_zones p p.account.domains

-- `_zone_handle`.
abbrev pub zone_handle : Provider → Text → Option Text
zone_handle p zonename = get p.zones zonename

unfoldable pub relative_name : Provider → Text → Text → Text
relative_name p hostname zonename =
    let api_zone = or_default (get p.api_zone_names zonename) zonename in
    if text_eq hostname api_zone
    then codes "@"
    else if ends_with (b'.' ∷ api_zone) hostname
    then take (length hostname - length (b'.' ∷ api_zone)) hostname
    else hostname

-- The first configured domain, in their order, that contains the name.
first_containing : List Text → Text → Option Text
first_containing [] hostname = none
first_containing (domain ∷ domains) hostname =
    let rest = first_containing domains hostname in
    if zone_contains domain hostname then some domain else rest

-- `domaininhostname`; `none` is `False`.
unfoldable pub domaininhostname : Provider → Text → Option Text
unfolding first_containing
domaininhostname p hostname = first_containing (keys p.zones) hostname

-- `grouped.setdefault(domain, []).append(hostname)`.
abbrev pub add_to_group : Dict (List Text) → Text → Text → Dict (List Text)
add_to_group grouped domain hostname =
    put grouped domain (or_default (get grouped domain) [] ++ hostname ∷ [])

group_hostnames : Provider → Dict (List Text) → List Text → Option (Dict (List Text))
group_hostnames p grouped [] = some grouped
group_hostnames p grouped (hostname ∷ hostnames) = elim (domaininhostname p hostname) [
  | none ↦ none
  | some domain ↦ elim (is_empty domain) [
    | true ↦ none
    | false ↦ group_hostnames p (add_to_group grouped domain hostname) hostnames
  ]
]

-- `hostnameperzone`; `none` is `False`: one name outside every domain refuses them all. So does an empty
-- domain name, which is falsy.
unfoldable pub hostnameperzone : Provider → List Text → Option (Dict (List Text))
unfolding group_hostnames
hostnameperzone p hostnames = group_hostnames p [] hostnames
