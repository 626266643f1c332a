-- ===== src/Provider/Route53.antt =====
-- The Route 53 adapter (backend/src/atrium_ddns/providers/route53.py).
use atrium_ddns.Prelude.{
  ℕ, zero, suc, not, ◌&&◌, Option, none, some, List, [], ◌∷◌, ◌++◌, map, any, filter, if◌then◌else◌,
}
use atrium_ddns.Prelude.Int.{ℤ}
use atrium_ddns.Text.{Text, codes, lower, text_eq, is_empty}
use atrium_ddns.Dict.{Dict, put}
use atrium_ddns.Address.{RecordType}
use atrium_ddns.Status.{Status, good, nochg, dnserr}
use atrium_ddns.Provider.Account.{Provider, has_credentials, rtypes_for}
use atrium_ddns.Provider.Zones.{map_domains_to_zones, is_reverse_zone, zone_handle}
use atrium_ddns.Provider.Network.{
  Net, Exec, pure, throw, attempt, ask, Reply, page, ZonePage, listing, RrSet, upsert, delete_set,
  route53_client, route53_zones, route53_list, route53_change, ◌>>=◌, ◌>>◌,
}
use atrium_ddns.Provider.Check.{check_hostnameon_server}
use atrium_ddns.Provider.Adapter.{
  Adapter, Groups, Results, all_dnserr, mark, expect_done, rtype_text, rstrip_dots,
}

abbrev required : List Text
required = codes "aws_access_key_id" ∷ codes "aws_secret_access_key" ∷ []

-- The forward zones of a page, their names without the trailing dots.
forward_zones : Dict Text → List (Text × Text) → Dict Text
forward_zones zones [] = zones
forward_zones zones ((name, id) ∷ rest) =
    let plain = rstrip_dots name in
    forward_zones (if is_reverse_zone plain then zones else put zones plain id) rest

abbrev page_of : Reply → Exec ZonePage
page_of (page p) = pure p
page_of _ = throw

-- `marker = response.get("NextMarker")`; an empty marker ends the listing too.
abbrev next_page : ZonePage → Option Text
next_page p =
    if p.is_truncated
    then elim p.next_marker [ none ↦ none | some m ↦ if is_empty m then none else some m ]
    else none

-- The `while True` loop on the pages that it may still read: as the service lists more of them, more
-- are needed.
list_zones : Net → ℕ → Option Text → Dict Text → Exec (Dict Text)
list_zones net zero marker zones = throw
list_zones net (suc pages) marker zones = do
  reply ← ask net (route53_zones marker)
  p ← page_of reply
  let zones' = forward_zones zones p.zones
  elim (next_page p) [ none ↦ pure zones' | some next ↦ list_zones net pages (some next) zones' ]

discover_zones : ℕ → Net → Provider → Exec Provider
discover_zones pages net p =
    if not (has_credentials required p.account.credentials) then pure p else do
      client ← ask net route53_client
      expect_done client
      api_zones ← list_zones net pages none []
      pure (map_domains_to_zones p api_zones)

abbrev results_or : Option (Unit {0}) → Status → Status
results_or none status = dnserr
results_or (some _) status = status

-- A client, or every name `dnserr`.
abbrev with_client : Net → Groups → Exec Results → Exec Results
with_client net groups body = do
  client ← attempt (ask net route53_client >>= expect_done)
  elim client [ none ↦ pure (all_dnserr groups) | some _ ↦ body ]

module _ (net : Net) (p : Provider) where
  -- The names that DNS does not answer yet, in order, with `nochg` for those that it does.
  check_names : Text → RecordType → Results → List Text → List Text → Exec (Results × List Text)
  check_names ip rtype results changed [] = pure (results, changed)
  check_names ip rtype results changed (hostname ∷ hostnames) = do
    unchanged ← check_hostnameon_server net p.resolvers hostname ip rtype none
    if unchanged
        then check_names ip rtype (put results hostname nochg) changed hostnames
        else check_names ip rtype results (changed ++ hostname ∷ []) hostnames

  abbrev write_batch : Text → Text → RecordType → ℤ → Results → List Text → Exec Results
  write_batch zone_id ip rtype ttl results [] = pure results
  write_batch zone_id ip rtype ttl results (hostname ∷ hostnames) = do
    let changes = map (λ h. upsert h rtype ttl ip) (hostname ∷ hostnames)
    written ← attempt (ask net (route53_change zone_id changes) >>= expect_done)
    pure (mark results (results_or written good) (hostname ∷ hostnames))

  abbrev create_zone : List Text → Text → RecordType → ℤ → Results → Option Text → Exec Results
  create_zone hostnames ip rtype ttl results none = pure (mark results dnserr hostnames)
  create_zone hostnames ip rtype ttl results (some zone_id) = do
    checked ← check_names ip rtype results [] hostnames
    write_batch zone_id ip rtype ttl checked.0 checked.1

  create_zones : Text → RecordType → ℤ → Results → Groups → Exec Results
  create_zones ip rtype ttl results [] = pure results
  create_zones ip rtype ttl results ((zonename, hostnames) ∷ groups) = do
    results' ← create_zone hostnames ip rtype ttl results (zone_handle p zonename)
    create_zones ip rtype ttl results' groups

  createrecords : Text → Groups → RecordType → ℤ → Exec Results
  createrecords ip groups rtype ttl =
      if not (has_credentials required p.account.credentials)
      then pure (all_dnserr groups)
      else with_client net groups (create_zones ip rtype ttl [] groups)

  -- The sets of a listing that a delete of the name takes.
  matching : List RecordType → Text → List RrSet → List RrSet
  matching rtypes hostname = filter (λ s.
      text_eq (lower (rstrip_dots s.name)) (lower hostname)
      && any (λ r. text_eq (rtype_text r) s.rtype) rtypes)

  abbrev delete_sets : Text → List RrSet → Exec Status
  delete_sets zone_id [] = pure nochg
  delete_sets zone_id (s ∷ sets) = do
    deleted ← attempt (ask net (route53_change zone_id (map delete_set (s ∷ sets))) >>= expect_done)
    pure (results_or deleted good)

  delete_names : Text → List RrSet → List RecordType → Results → List Text → Exec Results
  delete_names zone_id existing rtypes results [] = pure results
  delete_names zone_id existing rtypes results (hostname ∷ hostnames) = do
    status ← delete_sets zone_id (matching rtypes hostname existing)
    delete_names zone_id existing rtypes (put results hostname status) hostnames

  abbrev delete_listed :
      Text → List Text → List RecordType → Results → Option (List RrSet) → Exec Results
  delete_listed zone_id hostnames rtypes results none = pure (mark results dnserr hostnames)
  delete_listed zone_id hostnames rtypes results (some existing) =
      delete_names zone_id existing rtypes results hostnames

  abbrev listing_of : Reply → Exec (List RrSet)
  listing_of (listing sets) = pure sets
  listing_of _ = throw

  abbrev delete_zone : List Text → List RecordType → Results → Option Text → Exec Results
  delete_zone hostnames rtypes results none = pure (mark results dnserr hostnames)
  delete_zone hostnames rtypes results (some zone_id) = do
    existing ← attempt (ask net (route53_list zone_id) >>= listing_of)
    delete_listed zone_id hostnames rtypes results existing

  delete_zones : List RecordType → Results → Groups → Exec Results
  delete_zones rtypes results [] = pure results
  delete_zones rtypes results ((zonename, hostnames) ∷ groups) = do
    results' ← delete_zone hostnames rtypes results (zone_handle p zonename)
    delete_zones rtypes results' groups

  deleterecords : Groups → Option RecordType → Exec Results
  deleterecords groups rtype =
      if not (has_credentials required p.account.credentials)
      then pure (all_dnserr groups)
      else with_client net groups (delete_zones (rtypes_for rtype) [] groups)

unfoldable pub route53 : ℕ → Adapter
unfolding forward_zones list_zones discover_zones check_names create_zones createrecords matching
    delete_names delete_zones deleterecords
route53 pages = record {
  class_name = codes "Route53Provider";
  service = codes "route53";
  aliases = codes "aws" ∷ [];
  discover_zones = discover_zones pages;
  createrecords = createrecords;
  deleterecords = deleterecords;
}
