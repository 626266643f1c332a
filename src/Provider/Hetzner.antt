-- ===== src/Provider/Hetzner.antt =====
-- The Hetzner adapter (backend/src/atrium_ddns/providers/hetzner.py).
use atrium_ddns.Prelude.{
  Bool, true, false, not, ◌||◌, Option, none, some, List, [], ◌∷◌, ◌==◌, if◌then◌else◌,
}
use atrium_ddns.Prelude.Int.{ℤ}
use atrium_ddns.Text.{Text, codes}
use atrium_ddns.Dict.{Dict, put}
use atrium_ddns.Address.{RecordType}
use atrium_ddns.Status.{Status, good, nochg, dnserr}
use atrium_ddns.Provider.Account.{Provider, has_credentials, rtypes_for}
use atrium_ddns.Provider.Zones.{map_domains_to_zones, is_reverse_zone, zone_handle, relative_name}
use atrium_ddns.Provider.Network.{
  Net, Exec, pure, throw, attempt, ask, Reply, page, hetzner_client, hetzner_zones, hetzner_get,
  hetzner_set, hetzner_create, hetzner_delete, ◌>>=◌, ◌>>◌,
}
use atrium_ddns.Provider.Check.{check_hostnameon_server}
use atrium_ddns.Provider.Adapter.{
  Adapter, Groups, Results, all_dnserr, mark, expect_done, status_code, raise_for_status,
}

abbrev required : List Text
required = codes "hetzner_api_token" ∷ []

-- Forward zones only.
abbrev pub forward_zones : Dict Text → List (Text × Text) → Dict Text
forward_zones zones [] = zones
forward_zones zones ((name, id) ∷ rest) =
    forward_zones (if is_reverse_zone name then zones else put zones name id) rest

abbrev zones_of : Reply → Exec (Dict Text)
zones_of (page p) = pure (forward_zones [] p.zones)
zones_of _ = throw

discover_zones : Net → Provider → Exec Provider
discover_zones net p = if not (has_credentials required p.account.credentials) then pure p else do
  client ← ask net hetzner_client
  expect_done client
  reply ← ask net hetzner_zones
  api_zones ← zones_of reply
  pure (map_domains_to_zones p api_zones)

module _ (net : Net) (p : Provider) where
  -- The body of the `try`: one GET, then a change of the set that is there or a new one.
  write_record : Text → Text → RecordType → ℤ → Text → Exec (Unit {0})
  write_record zone_id name rtype ttl ip = do
    existing ← ask net (hetzner_get zone_id name rtype)
    code ← status_code existing
    reply ← ask net (
        if code == 200
        then hetzner_set zone_id name rtype ttl ip
        else hetzner_create zone_id name rtype ttl ip)
    written ← status_code reply
    raise_for_status written

  abbrev write_status : Option (Unit {0}) → Status
  write_status none = dnserr
  write_status (some _) = good

  create_one : Text → Text → Text → Text → RecordType → ℤ → Exec Status
  create_one zone_id zonename hostname ip rtype ttl = do
    unchanged ← check_hostnameon_server net p.resolvers hostname ip rtype none
    if unchanged then pure nochg else do
      written ← attempt (write_record zone_id (relative_name p hostname zonename) rtype ttl ip)
      pure (write_status written)

  create_names : Text → Text → Text → RecordType → ℤ → Results → List Text → Exec Results
  create_names zone_id zonename ip rtype ttl results [] = pure results
  create_names zone_id zonename ip rtype ttl results (hostname ∷ hostnames) = do
    status ← create_one zone_id zonename hostname ip rtype ttl
    create_names zone_id zonename ip rtype ttl (put results hostname status) hostnames

  abbrev create_zone :
      Text → List Text → Text → RecordType → ℤ → Results → Option Text → Exec Results
  create_zone zonename hostnames ip rtype ttl results none = pure (mark results dnserr hostnames)
  create_zone zonename hostnames ip rtype ttl results (some zone_id) =
      create_names zone_id zonename ip rtype ttl results hostnames

  create_zones : Text → RecordType → ℤ → Results → Groups → Exec Results
  create_zones ip rtype ttl results [] = pure results
  create_zones ip rtype ttl results ((zonename, hostnames) ∷ groups) = do
    results' ← create_zone zonename hostnames ip rtype ttl results (zone_handle p zonename)
    create_zones ip rtype ttl results' groups

  createrecords : Text → Groups → RecordType → ℤ → Exec Results
  createrecords ip groups rtype ttl =
      if not (has_credentials required p.account.credentials) then pure (all_dnserr groups) else do
        client ← ask net hetzner_client
        expect_done client
        create_zones ip rtype ttl [] groups

  -- One family of the loop: a 404 deletes nothing.
  delete_family : Text → Text → RecordType → Exec Bool
  delete_family zone_id name rtype = do
    reply ← ask net (hetzner_delete zone_id name rtype)
    code ← status_code reply
    if code == 404 then pure false else (do raise_for_status code; pure true)

  delete_families : Text → Text → Bool → List RecordType → Exec Bool
  delete_families zone_id name deleted [] = pure deleted
  delete_families zone_id name deleted (rtype ∷ rtypes) = do
    done ← delete_family zone_id name rtype
    delete_families zone_id name (deleted || done) rtypes

  abbrev delete_status : Option Bool → Status
  delete_status none = dnserr
  delete_status (some true) = good
  delete_status (some false) = nochg

  delete_names : Text → Text → List RecordType → Results → List Text → Exec Results
  delete_names zone_id zonename rtypes results [] = pure results
  delete_names zone_id zonename rtypes results (hostname ∷ hostnames) = do
    deleted ← attempt (delete_families zone_id (relative_name p hostname zonename) false rtypes)
    delete_names zone_id zonename rtypes (put results hostname (delete_status deleted)) hostnames

  abbrev delete_zone : Text → List Text → List RecordType → Results → Option Text → Exec Results
  delete_zone zonename hostnames rtypes results none = pure (mark results dnserr hostnames)
  delete_zone zonename hostnames rtypes results (some zone_id) =
      delete_names zone_id zonename rtypes results hostnames

  delete_zones : List RecordType → Results → Groups → Exec Results
  delete_zones rtypes results [] = pure results
  delete_zones rtypes results ((zonename, hostnames) ∷ groups) = do
    results' ← delete_zone zonename hostnames rtypes results (zone_handle p zonename)
    delete_zones rtypes results' groups

  deleterecords : Groups → Option RecordType → Exec Results
  deleterecords groups rtype =
      if not (has_credentials required p.account.credentials) then pure (all_dnserr groups) else do
        client ← ask net hetzner_client
        expect_done client
        delete_zones (rtypes_for rtype) [] groups

unfoldable pub hetzner : Adapter
unfolding discover_zones write_record create_one create_names create_zones createrecords
    delete_family delete_families delete_names delete_zones deleterecords
hetzner = record {
  class_name = codes "HetznerProvider";
  service = codes "hetzner";
  aliases = [];
  discover_zones = discover_zones;
  createrecords = createrecords;
  deleterecords = deleterecords;
}
