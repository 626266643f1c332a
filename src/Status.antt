-- ===== src/Status.antt =====
-- The status vocabulary of the wire (backend/src/atrium_ddns/router_nic.py and providers/base.py) and
-- the event types. A status is its token: `wire` writes it out.
use atrium_ddns.Prelude.{Bool, true, false}
use atrium_ddns.Text.{Text, codes}

pub data Status : Type 0 where
  good nochg dnserr nohost unknown_service notfqdn badauth abuse : Status

-- `STATUS_911` is `STATUS_UNKNOWN_SERVICE`, the token 911.
unfoldable pub wire : Status → Text
wire good = codes "good"
wire nochg = codes "nochg"
wire dnserr = codes "dnserr"
wire nohost = codes "nohost"
wire unknown_service = codes "911"
wire notfqdn = codes "notfqdn"
wire badauth = codes "badauth"
wire abuse = codes "abuse"

abbrev pub is_good : Status → Bool
is_good good = true
is_good _ = false

abbrev pub is_nochg : Status → Bool
is_nochg nochg = true
is_nochg _ = false

-- `status in (STATUS_GOOD, STATUS_NOCHG)`.
abbrev pub is_settled : Status → Bool
is_settled good = true
is_settled nochg = true
is_settled _ = false

-- `ddns_event.event_type`.
pub data EventType : Type 0 where
  update delete auth manual_update adopt_zone : EventType
