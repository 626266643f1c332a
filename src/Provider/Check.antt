-- ===== src/Provider/Check.antt =====
-- `check_hostnameon_server` and `get_authoritative_nameserver` of `BaseProvider`.
pub mod Conservative
use atrium_ddns.Prelude.{
  ℕ, zero, suc, ◌+◌, ◌-◌, Bool, true, false, ◌&&◌, ◌||◌, not, Option, none, some, List, [], ◌∷◌,
  ltb, ◌==◌, length, filter, if◌then◌else◌, all,
}
use atrium_ddns.Text.{Text, text_eq, codes}
use atrium_ddns.Address.{Address, RecordType, getip, v4, v6, Octets}
use atrium_ddns.Provider.Account.{Provider}
use atrium_ddns.Provider.Network.{
  Net, ns_query, resolve_target, resolve, Reply, unreachable, response, address, answers, Section,
  no_record, soa, ns, Exec, pure, throw, ask, ◌>>=◌,
}

-- The rcodes that the walk tells apart.
abbrev noerror : ℕ
noerror = 0

abbrev servfail : ℕ
servfail = 2

abbrev nxdomain : ℕ
nxdomain = 3

abbrev refused : ℕ
refused = 5

abbrev pub fallback_nameserver : Text
fallback_nameserver = codes "8.8.8.8"

-- What the hop's loop over its candidates ends with: the response and who gave it, or `None`.
pub record HopReply : Type 0 where
  pub server : Text
  pub rcode : ℕ
  pub section : Section

abbrev unhelpful : Bool → ℕ → Bool
unhelpful failover rcode = failover && (rcode == servfail || rcode == refused)

abbrev after_query : Bool → Text → Reply → Exec (Option HopReply) → Exec (Option HopReply)
after_query failover server (response rcode section) next =
    if unhelpful failover rcode
    then next
    else pure (some (record { server = server; rcode = rcode; section = section }))
after_query failover server unreachable next = next
after_query failover server _ next = throw

-- The inner `for nameserver in candidates`: the next candidate on a timeout or a socket error, and on
-- SERVFAIL or REFUSED while there is a choice.
unfoldable pub ask_candidates : Net → Text → ℕ → Bool → List Text → Exec (Option HopReply)
ask_candidates net domain depth failover [] = pure none
ask_candidates net domain depth failover (server ∷ rest) = do
  reply ← ask net (ns_query server domain depth)
  after_query failover server reply (ask_candidates net domain depth failover rest)

-- `[nameserver] + [server for server in candidates if server != nameserver]`.
abbrev promote : Text → List Text → List Text
promote server candidates = server ∷ filter (λ s. not (text_eq s server)) candidates

-- A resolver that answered in place of the first is asked first from then on.
abbrev promoted : Bool → List Text → List Text → Option HopReply → List Text
promoted failover candidates default none = default
promoted failover [] default (some hop) = default
promoted failover (first ∷ rest) default (some hop) =
    if failover && not (text_eq hop.server first)
    then promote hop.server (first ∷ rest)
    else default

-- What a hop decides: the walk is over with an answer, or goes on from a nameserver.
pub data Hop : Type 0 where
  finished : Option Text → Hop
  onward : Text → Hop

abbrev target_hop : Reply → Exec Hop
target_hop (address server) = pure (onward server)
target_hop unreachable = pure (finished none)
target_hop _ = throw

-- The rest of the body for a response. A response with no record has no `answer[0]`.
unfoldable pub read_response : Net → ℕ → List Text → HopReply → Exec Hop
read_response net depth default hop =
    if not (hop.rcode == noerror)
    then (if hop.rcode == nxdomain && ltb 2 depth
        then pure (finished (some hop.server))
        else pure (finished none))
    else elim hop.section [
      | no_record ↦ throw
      | soa ↦ pure (onward hop.server)
      | ns target ↦ (do reply ← ask net (resolve_target default target); target_hop reply)
    ]

abbrev hop_of : Net → ℕ → List Text → Option HopReply → Exec Hop
hop_of net depth default none = pure (finished none)
hop_of net depth default (some hop) = read_response net depth default hop

-- The `while not last` loop, on the rounds left: one for each depth from 2 to the number of labels.
unfoldable pub walk : Net → Text → ℕ → ℕ → List Text → List Text → Text → Exec (Option Text)
walk net domain zero depth candidates default server = pure (some server)
walk net domain (suc rounds) depth candidates default server = do
  let failover = ltb 1 (length candidates)
  hop ← ask_candidates net domain depth failover candidates
  let default' = promoted failover candidates default hop
  decided ← hop_of net depth default' hop
  elim decided [
    | finished answer ↦ pure answer
    | onward next ↦ walk net domain rounds (depth + 1) (next ∷ []) default' next
  ]

-- `_resolver().nameservers`: the configured resolvers when there are any.
abbrev default_nameservers : Net → List Text → List Text
default_nameservers net [] = net.system_resolvers
default_nameservers net (r ∷ rs) = r ∷ rs

abbrev walk_from : Net → Text → ℕ → List Text → Exec (Option Text)
walk_from net domain labels [] = pure none
walk_from net domain labels (server ∷ rest) =
    walk net domain (labels - 1) 2 (server ∷ rest) (server ∷ rest) server

-- A name of the root alone has no depth 2 to split at, and a configured resolver that a resolver does not
-- take raises.
unfoldable pub get_authoritative_nameserver : Net → List Text → Text → Exec (Option Text)
get_authoritative_nameserver net resolvers domain = elim (net.labels domain) [
  | none ↦ throw
  | some labels ↦
      if ltb labels 2 || not (all net.is_nameserver resolvers)
      then throw
      else walk_from net domain labels (default_nameservers net resolvers)
]

abbrev nameservers_for : List Text → Option Text → List Text
nameservers_for resolvers (some server) = server ∷ []
nameservers_for [] none = fallback_nameserver ∷ []
nameservers_for (r ∷ rs) none = r ∷ rs

-- Two addresses are equal as Python's objects are.
octets_eq : Octets → Octets → Bool
octets_eq o p =
    o.first == p.first && o.second == p.second && o.third == p.third && o.fourth == p.fourth

abbrev scope_eq : Option Text → Option Text → Bool
scope_eq none none = true
scope_eq (some s) (some t) = text_eq s t
scope_eq _ _ = false

unfoldable pub address_eq : Address → Address → Bool
unfolding octets_eq
address_eq (v4 o) (v4 p) = octets_eq o p
address_eq (v6 h s) (v6 k t) = text_eq h k && scope_eq s t
address_eq _ _ = false

abbrev same_address : Option Address → Option Address → Bool
same_address (some x) (some y) = address_eq x y
same_address _ _ = false

-- What the lookup says: only a first answer that is an address, and the same address, says yes.
unfoldable pub already_answers : Text → Reply → Bool
already_answers ip (answers (first ∷ rest)) =
    if first.is_address then same_address (getip ip) (getip first.address) else false
already_answers ip _ = false

-- `resolver.nameservers = […]` and the lookup. The assignment refuses what is no address, outside the
-- `try`; the exceptions of the lookup itself are caught.
abbrev look_up : Net → List Text → Text → Text → RecordType → Exec Bool
look_up net servers hostname ip rtype =
    if all net.is_nameserver servers
    then (do reply ← ask net (resolve servers hostname rtype); pure (already_answers ip reply))
    else throw

-- The exceptions of the delegation walk are not caught.
unfoldable pub check_hostnameon_server :
    Net → List Text → Text → Text → RecordType → Option Text → Exec Bool
check_hostnameon_server net resolvers hostname ip rtype (some nameserver) =
    look_up net (nameserver ∷ []) hostname ip rtype
check_hostnameon_server net resolvers hostname ip rtype none = do
  nameserver ← get_authoritative_nameserver net resolvers hostname
  look_up net (nameservers_for resolvers nameserver) hostname ip rtype
