-- ===== src/Nic/Admit.antt =====
-- `_touch_device` and `_admit`, and what a request is served with.
pub mod Effects
use atrium_ddns.Prelude.{
  ℕ, suc, Bool, true, false, Option, none, some, List, [], ◌∷◌, ◌++◌, take, if◌then◌else◌,
}
use atrium_ddns.Prelude.Int.{ℤ, pos, negsuc}
use atrium_ddns.Text.{Text, codes, has_char, decimal}
use atrium_ddns.Status.{Status, badauth, abuse, EventType}
use atrium_ddns.Store.{Tables, Device, Instant, change_device}
use atrium_ddns.Provider.Network.{Net}
use atrium_ddns.Provider.Registry.{Registry}
use atrium_ddns.Auth.Header.{Request, parse_basic_auth}
use atrium_ddns.Auth.Password.{Hasher}
use atrium_ddns.Auth.Device.{DeviceAuth, AuthResult, verified, failed, authenticate_device}
use atrium_ddns.Auth.RateLimit.{effective_rate_limit, check_rate_limit}
use atrium_ddns.Nic.Load.{Vault}
use atrium_ddns.Nic.Events.{by_device, by_refusal, Entry, record_event}

-- The settings that the endpoints read (`DdnsConfig`).
pub record DdnsConfig : Type 0 where
  pub rate_limit_per_minute : ℤ
  pub dns_resolvers : List Text

-- What `_now` reads at the places of a request that call it.
pub record Clock : Type 0 where
  pub seen : Instant
  pub charged : Instant
  pub persisted : Instant
  pub logged : ℕ → Instant

-- What is around a request: the network, the adapters, how the database compares texts, the hasher, the secrets, the settings, the clock,
-- and whether the database takes the commit.
pub record Env : Type 0 where
  pub net : Net
  pub registry : Registry
  pub same_text : Text → Text → Bool
  pub hasher : Hasher
  pub vault : Vault
  pub config : DdnsConfig
  pub clock : Clock
  pub commits : Bool

-- `user_agent[:255] if user_agent else None`.
abbrev kept_user_agent : Option Text → Option Text
kept_user_agent none = none
kept_user_agent (some []) = none
kept_user_agent (some (c ∷ s)) = some (take 255 (c ∷ s))

abbrev called_from : Option Text → Device → Device
called_from none device = device
called_from (some ip) device =
    if has_char b':' ip
    then record device { last_ip_v6 = some ip }
    else record device { last_ip_v4 = some ip }

-- `_touch_device`, on the row.
unfoldable pub touch : Instant → Option Text → Option Text → Device → Device
touch moment user_agent client_ip device =
    called_from client_ip
      (record device { last_seen_at = some moment; last_user_agent = kept_user_agent user_agent })

-- The table's row and the one that the request holds are one object.
unfoldable pub touch_device :
    Instant → Request → Option Text → DeviceAuth → Tables → DeviceAuth × Tables
unfolding touch
touch_device moment request client_ip auth t = (
  record auth { device = touch moment request.user_agent client_ip auth.device },
  record t {
    devices = change_device auth.device.id (touch moment request.user_agent client_ip) t.devices;
  },
)

-- `str(n)`.
abbrev decimal_ℤ : ℤ → Text
decimal_ℤ (pos n) = decimal n
decimal_ℤ (negsuc n) = b'-' ∷ decimal (suc n)

unfoldable pub limit_message : ℤ → Text
limit_message limit = codes "rate limit exceeded (" ++ decimal_ℤ limit ++ codes "/minute)"

pub data Admission : Type 0 where
  admitted : DeviceAuth → Admission
  refused : Status → Admission

abbrev pub refusal_entry : EventType → Status → Option Text → Option Text → Option Text → Entry
refusal_entry event_type status client_ip ip message = record {
  event_type = event_type;
  response_code = status;
  plan = none;
  client_ip = client_ip;
  ip = ip;
  backend_type = none;
  message = message;
}

abbrev admit_charged :
    Env → EventType → Option Text → DeviceAuth → Bool × Tables → Admission × Tables
admit_charged env event_type client_ip auth (true, t) = (admitted auth, t)
admit_charged env event_type client_ip auth (false, t) =
    let limit = effective_rate_limit auth.device env.config.rate_limit_per_minute in
    (
      refused abuse,
      record_event env.clock.logged (by_device auth)
          (refusal_entry event_type abuse client_ip none (some (limit_message limit))) t,
    )

abbrev admit_touched : Env → EventType → Option Text → DeviceAuth × Tables → Admission × Tables
admit_touched env event_type client_ip (auth, t) =
    admit_charged env event_type client_ip auth
      (check_rate_limit auth env.config.rate_limit_per_minute env.clock.charged t)

abbrev admit_result :
    Env → Request → EventType → Option Text → AuthResult × Tables → Admission × Tables
admit_result env request event_type client_ip (failed f, t) = (
  refused badauth,
  record_event env.clock.logged (by_refusal f)
      (refusal_entry EventType.auth badauth client_ip none none) t,
)
admit_result env request event_type client_ip (verified auth, t) =
    admit_touched env event_type client_ip (touch_device env.clock.seen request client_ip auth t)

-- `_admit`.
unfoldable pub admit : Env → Request → EventType → Option Text → Tables → Admission × Tables
admit env request event_type client_ip t =
    admit_result env request event_type client_ip
      (authenticate_device env.same_text env.hasher t (parse_basic_auth request.authorization))
