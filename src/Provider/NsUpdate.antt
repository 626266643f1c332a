-- ===== src/Provider/NsUpdate.antt =====
-- The RFC 2136 adapter (backend/src/atrium_ddns/providers/nsupdate.py).
pub mod Deletes
use atrium_ddns.Prelude.{
  Bool, false, not, ◌&&◌, ◌==◌, Option, none, some, List, [], ◌∷◌, map, if◌then◌else◌,
}
use atrium_ddns.Prelude.Int.{ℤ}
use atrium_ddns.Text.{Text, codes}
use atrium_ddns.Dict.{put, get}
use atrium_ddns.Address.{RecordType}
use atrium_ddns.Status.{Status, good, nochg, dnserr}
use atrium_ddns.Provider.Account.{Account, Provider, Json, str, truthy, rtypes_for}
use atrium_ddns.Provider.Network.{
  Net, Exec, pure, throw, attempt, ask, Reply, response, Edit, replace, delete, nsupdate_send,
  ◌>>=◌,
}
use atrium_ddns.Provider.Check.{check_hostnameon_server}
use atrium_ddns.Provider.Adapter.{Adapter, Groups, Results, all_dnserr}

-- The four values that an update needs.
pub record Settings : Type 0 where
  pub key : Option Json
  pub algo : Option Json
  pub secret : Option Json
  pub nameserver : Option Json

abbrev truthy_setting : Option Json → Bool
truthy_setting none = false
truthy_setting (some v) = truthy v

-- `credentials.get(key) or config.get(key)`.
abbrev either_setting : Option Json → Option Json → Option Json
either_setting c o = if truthy_setting c then c else o

-- `settings`: the secret comes from the credentials alone, the others from either.
unfoldable pub settings : Account → Settings
settings account =
    let resolve =
      λ (key : Text). either_setting (get account.credentials key) (get account.config key) in
    record {
      key = resolve (codes "nsupdate_key");
      algo = resolve (codes "nsupdate_algo");
      secret = get account.credentials (codes "nsupdate_secret");
      nameserver = resolve (codes "nsupdate_nameserver");
    }

-- `has_credentials`, as this class overrides it.
unfoldable pub has_settings : Settings → Bool
has_settings s =
    truthy_setting s.key
    && truthy_setting s.algo
    && truthy_setting s.secret
    && truthy_setting s.nameserver

-- A setting that is no text raises where it is used as one.
abbrev text_of : Option Json → Option Text
text_of (some (str s)) = some s
text_of _ = none

-- `_raise_for_rcode`: only NOERROR says that the zone was written.
abbrev accept : Reply → Exec (Unit {0})
accept (response rcode section) = if rcode == 0 then pure tt else throw
accept _ = throw

module _ (net : Net) (p : Provider) where
  -- `_message`, the edits, and the exchange with the nameserver. A bad key, secret or algorithm
  -- raises in here, like the exchange.
  send : Text → Text → List Edit → Exec (Unit {0})
  send nameserver zonename edits = do
    reply ← ask net (nsupdate_send nameserver zonename edits)
    accept reply

  abbrev send_signed : Option Text → Text → Text → List Edit → Exec (Unit {0})
  send_signed none nameserver zonename edits = throw
  send_signed (some key) nameserver zonename edits = send nameserver zonename edits

  abbrev write_status : Option (Unit {0}) → Status
  write_status none = dnserr
  write_status (some _) = good

  -- A nameserver that is no text is refused where the resolver is given it.
  create_one : Settings → Option Text → Text → Text → Text → RecordType → ℤ → Exec Status
  create_one s none zonename hostname ip rtype ttl = throw
  create_one s (some nameserver) zonename hostname ip rtype ttl = do
    unchanged ← check_hostnameon_server net p.resolvers hostname ip rtype (some nameserver)
    if unchanged then pure nochg else do
      written ←
          attempt
            (send_signed (text_of s.key) nameserver zonename (replace hostname rtype ttl ip ∷ []))
      pure (write_status written)

  create_names :
      Settings → Option Text → Text → Text → RecordType → ℤ → Results → List Text → Exec Results
  create_names s nameserver zonename ip rtype ttl results [] = pure results
  create_names s nameserver zonename ip rtype ttl results (hostname ∷ hostnames) = do
    status ← create_one s nameserver zonename hostname ip rtype ttl
    create_names s nameserver zonename ip rtype ttl (put results hostname status) hostnames

  create_zones : Settings → Option Text → Text → RecordType → ℤ → Results → Groups → Exec Results
  create_zones s nameserver ip rtype ttl results [] = pure results
  create_zones s nameserver ip rtype ttl results ((zonename, hostnames) ∷ groups) = do
    results' ← create_names s nameserver zonename ip rtype ttl results hostnames
    create_zones s nameserver ip rtype ttl results' groups

  createrecords : Text → Groups → RecordType → ℤ → Exec Results
  createrecords ip groups rtype ttl =
      let s = settings p.account in
      if not (has_settings s)
      then pure (all_dnserr groups)
      else create_zones s (text_of s.nameserver) ip rtype ttl [] groups

  -- One message for both families.
  delete_one : Settings → Text → Text → List RecordType → Exec Status
  delete_one s zonename hostname rtypes = do
    written ← attempt (elim (text_of s.nameserver) [
      | none ↦ throw
      | some nameserver ↦
          send_signed (text_of s.key) nameserver zonename (map (delete hostname) rtypes)
    ])
    pure (write_status written)

  delete_names : Settings → Text → List RecordType → Results → List Text → Exec Results
  delete_names s zonename rtypes results [] = pure results
  delete_names s zonename rtypes results (hostname ∷ hostnames) = do
    status ← delete_one s zonename hostname rtypes
    delete_names s zonename rtypes (put results hostname status) hostnames

  delete_zones : Settings → List RecordType → Results → Groups → Exec Results
  delete_zones s rtypes results [] = pure results
  delete_zones s rtypes results ((zonename, hostnames) ∷ groups) = do
    results' ← delete_names s zonename rtypes results hostnames
    delete_zones s rtypes results' groups

  deleterecords : Groups → Option RecordType → Exec Results
  deleterecords groups rtype =
      let s = settings p.account in
      if not (has_settings s)
      then pure (all_dnserr groups)
      else delete_zones s (rtypes_for rtype) [] groups

-- `_discover_zones` does nothing: its zones are the configured domains.
discover_zones : Net → Provider → Exec Provider
discover_zones net p = pure p

unfoldable pub nsupdate : Adapter
unfolding settings has_settings send create_one create_names create_zones createrecords delete_one
    delete_names delete_zones deleterecords discover_zones
nsupdate = record {
  class_name = codes "NsUpdateProvider";
  service = codes "nsupdate";
  aliases = [];
  discover_zones = discover_zones;
  createrecords = createrecords;
  deleterecords = deleterecords;
}
