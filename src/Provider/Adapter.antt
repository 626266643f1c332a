-- ===== src/Provider/Adapter.antt =====
-- What the three adapters share: the class of an adapter, its construction, and the maps of statuses
-- that its operations return.
pub mod Known
use atrium_ddns.Prelude.{
  ℕ, Bool, true, false, ◌&&◌, Option, none, some, List, [], ◌∷◌, leb, if◌then◌else◌, ◌==◌,
}
use atrium_ddns.Prelude.Int.{ℤ}
use atrium_ddns.Text.{Text, codes}
use atrium_ddns.Dict.{Dict, put}
use atrium_ddns.Address.{RecordType, a, aaaa}
use atrium_ddns.Status.{Status, dnserr}
use atrium_ddns.Provider.Account.{Account, Provider, seed}
use atrium_ddns.Provider.Network.{Net, Exec, pure, throw, attempt, Reply, done, http, ◌>>=◌}

-- `dict[str, Sequence[str]]`, and the answer of an operation.
abbrev pub Groups : Type 0
Groups = Dict (List Text)

abbrev pub Results : Type 0
Results = Dict Status

-- `results.update({hostname: status for hostname in hostnames})`.
abbrev pub mark : Results → Status → List Text → Results
mark results status [] = results
mark results status (hostname ∷ hostnames) = mark (put results hostname status) status hostnames

abbrev mark_all : Results → Groups → Results
mark_all results [] = results
mark_all results ((zonename, hostnames) ∷ groups) = mark_all (mark results dnserr hostnames) groups

-- `_all_dnserr`.
unfoldable pub all_dnserr : Groups → Results
all_dnserr groups = mark_all [] groups

-- A class of adapters. Two classes are one if they have one name.
pub record Adapter : Type 0 where
  pub class_name : Text
  pub service : Text
  pub aliases : List Text
  pub discover_zones : Net → Provider → Exec Provider
  pub createrecords : Net → Provider → Text → Groups → RecordType → ℤ → Exec Results
  pub deleterecords : Net → Provider → Groups → Option RecordType → Exec Results

abbrev or_seeded : Provider → Option Provider → Provider
or_seeded p none = p
or_seeded p (some q) = q

-- `BaseProvider.__init__`: discovery runs at construction, and what it raises is logged and dropped.
unfoldable pub construct : Net → Adapter → Account → List Text → Exec Provider
construct net adapter account resolvers = do
  let seeded = seed account resolvers
  found ← attempt (adapter.discover_zones net seeded)
  pure (or_seeded seeded found)

abbrev is_success : ℕ → Bool
is_success code = leb 200 code && leb code 299

-- A call that must be answered, and `raise_for_status`.
abbrev pub expect_done : Reply → Exec (Unit {0})
expect_done done = pure tt
expect_done _ = throw

abbrev pub status_code : Reply → Exec ℕ
status_code (http code) = pure code
status_code _ = throw

abbrev pub raise_for_status : ℕ → Exec (Unit {0})
raise_for_status code = if is_success code then pure tt else throw

-- The token of a record type.
abbrev pub rtype_text : RecordType → Text
rtype_text a = codes "A"
rtype_text aaaa = codes "AAAA"

-- `name.rstrip(".")`.
abbrev drop_dot : ℕ → Text → Text
drop_dot c [] = elim (◌==◌ c b'.') [ true ↦ [] | false ↦ c ∷ [] ]
drop_dot c (d ∷ s) = c ∷ d ∷ s

unfoldable pub rstrip_dots : Text → Text
rstrip_dots [] = []
rstrip_dots (c ∷ s) = drop_dot c (rstrip_dots s)
