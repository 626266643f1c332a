-- ===== src/Provider/Network.antt =====
-- The network that the adapters ask: DNS servers and provider APIs. It is a parameter: an oracle that
-- answers a call from all the calls before it, so an answer may depend on any state out there.
pub mod Outcomes
use atrium_ddns.Prelude.{ℕ, Option, none, some, List, ◌∷◌, Bool}
use atrium_ddns.Prelude.Int.{ℤ}
use atrium_ddns.Text.{Text}
use atrium_ddns.Address.{RecordType}

-- A record set of a provider's listing. What else it holds is passed back unread.
pub record RrSet : Type 0 where
  pub name : Text
  pub rtype : Text
  pub body : ℕ

pub data Change : Type 0 where
  upsert : Text → RecordType → ℤ → Text → Change
  delete_set : RrSet → Change

pub data Edit : Type 0 where
  replace : Text → RecordType → ℤ → Text → Edit
  delete : Text → RecordType → Edit

pub data Call : Type 0 where
  -- dnspython: one NS query over UDP at a depth of a name, and a resolver's lookups.
  ns_query : Text → Text → ℕ → Call
  resolve_target : List Text → Text → Call
  resolve : List Text → Text → RecordType → Call
  -- Hetzner: the client, the zones, and the record sets by zone, name and type.
  hetzner_client hetzner_zones : Call
  hetzner_get hetzner_delete : Text → Text → RecordType → Call
  hetzner_set hetzner_create : Text → Text → RecordType → ℤ → Text → Call
  -- Route 53: the client, a page of zones from a marker, the record sets of a zone, a change batch.
  route53_client : Call
  route53_zones : Option Text → Call
  route53_list : Text → Call
  route53_change : Text → List Change → Call
  -- RFC 2136: one signed update of a zone, sent to a nameserver.
  nsupdate_send : Text → Text → List Edit → Call

-- What the first record of a response is, from its authority section or else its answer section:
-- none that can be read, an SOA, or a record with a target.
pub data Section : Type 0 where
  no_record soa : Section
  ns : Text → Section

-- One answer of a lookup: whether it is of an address type, and its address.
pub record Answer : Type 0 where
  pub is_address : Bool
  pub address : Text

pub record ZonePage : Type 0 where
  pub zones : List (Text × Text)
  pub is_truncated : Bool
  pub next_marker : Option Text

pub data Reply : Type 0 where
  -- Any exception; and the ones that the code catches by name (timeouts, socket errors).
  raised unreachable : Reply
  done : Reply
  response : ℕ → Section → Reply
  address : Text → Reply
  answers : List Answer → Reply
  http : ℕ → Reply
  page : ZonePage → Reply
  listing : List RrSet → Reply

pub record Net : Type 0 where
  pub oracle : List Call → Call → Reply
  -- How many labels `dns.name.from_text` reads, the root included; `none` if it raises.
  pub labels : Text → Option ℕ
  -- What a dnspython resolver takes for a nameserver: an address, or an https URL.
  pub is_nameserver : Text → Bool
  -- The nameservers of `/etc/resolv.conf`.
  pub system_resolvers : List Text

-- The calls made so far, the latest first.
abbrev pub Trace : Type 0
Trace = List Call

pub data Outcome {ℓ} (A : Type ℓ) : Type ℓ where
  ok : A → Outcome A
  raise : Outcome A

abbrev pub Exec {ℓ} : Type ℓ → Type ℓ
Exec A = Trace → Outcome A × Trace

module _ {ℓ} {A : Type ℓ} where
  abbrev pub pure : A → Exec A
  pure x t = (ok x, t)

  abbrev pub throw : Exec A
  throw t = (raise, t)

  -- `try: … except Exception: …`.
  abbrev caught : Outcome A → Option A
  caught (ok x) = some x
  caught raise = none

  abbrev pub attempt : Exec A → Exec (Option A)
  attempt m t = let (r, t') = m t in (ok (caught r), t')

module _ {ℓ κ} {A : Type ℓ} {B : Type κ} where
  abbrev pub continue : Outcome A → (A → Exec B) → Exec B
  continue (ok x) f t = f x t
  continue raise f t = (raise, t)

infixl 5 ◌>>=◌ ◌>>◌
abbrev pub ◌>>=◌ {ℓ κ} : {A : Type ℓ} {B : Type κ} → Exec A → (A → Exec B) → Exec B
◌>>=◌ m f t = let (r, t') = m t in continue r f t'

abbrev pub ◌>>◌ {ℓ κ} : {A : Type ℓ} {B : Type κ} → Exec A → Exec B → Exec B
m >> k = m >>= λ _. k

-- One call: asked, recorded, answered.
abbrev pub ask : Net → Call → Exec Reply
ask net c t = (ok (net.oracle t c), c ∷ t)
