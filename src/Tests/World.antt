-- ===== src/Tests/World.antt =====
-- A small installation: a tenant with a domain, a device, a host name and a binding to a stub adapter.
use atrium_ddns.Prelude.{true, false, none, some, [], ◌∷◌, Option}
use atrium_ddns.Prelude.Int.{ℤ, pos}
use atrium_ddns.Text.{Text, codes, text_eq}
use atrium_ddns.Address.{RecordType}
use atrium_ddns.Status.{good}
use atrium_ddns.Store.{User, Domain, Backend, Device, Hostname, Tables, Session}
use atrium_ddns.Provider.Account.{str, Provider}
use atrium_ddns.Provider.Network.{Net, raised, pure, Exec}
use atrium_ddns.Provider.Adapter.{Adapter, Groups, Results, mark}
use atrium_ddns.Provider.Registry.{Registry}
use atrium_ddns.Auth.Header.{Request}
use atrium_ddns.Auth.Password.{Hasher, verdict}
use atrium_ddns.Auth.Device.{DeviceAuth}
use atrium_ddns.Nic.Load.{Vault}
use atrium_ddns.Nic.Admit.{Env, DdnsConfig, Clock}

abbrev pub tenant : User
tenant = record { id = 7; email = codes "t@x.org"; is_active = true }

abbrev pub zone : Domain
zone = record { id = 3; user_id = 7; name = codes "x.org" }

abbrev pub binding : Backend
binding = record {
  id = 5;
  domain_id = 3;
  user_id = 7;
  backend_type = codes "stub";
  config = [];
  credentials_ct = some (codes "ct");
}

abbrev pub box : Device
box = record {
  id = 1;
  user_id = 7;
  username = codes "dev";
  password_hash = codes "h";
  name = codes "box";
  last_seen_at = none;
  last_ip_v4 = none;
  last_ip_v6 = none;
  last_user_agent = none;
  rate_limit_per_minute = none;
}

abbrev pub home : Hostname
home = record {
  id = 9;
  domain_id = 3;
  device_id = some 1;
  name = codes "h.x.org";
  ttl = none;
  last_ip_v4 = none;
  last_ip_v6 = some (codes "::1");
  last_updated_at = none;
  dns_ip_v4 = some (codes "192.0.2.9");
  dns_ip_v6 = none;
  dns_checked_at = some 1;
  dns_check_error = none;
}

abbrev pub tables : Tables
tables = record {
  users = tenant ∷ [];
  domains = zone ∷ [];
  backends = binding ∷ [];
  devices = box ∷ [];
  hostnames = home ∷ [];
  selections = [];
  events = [];
  rate_events = [];
}

abbrev pub session : Session
session = record { committed = tables; current = tables }

-- The stub adapter publishes every name that it is handed.
abbrev stub_create : Net → Provider → Text → Groups → RecordType → ℤ → Exec Results
stub_create net p ip [] rtype ttl = pure []
stub_create net p ip ((domain, hostnames) ∷ groups) rtype ttl = pure (mark [] good hostnames)

abbrev stub_delete : Net → Provider → Groups → Option RecordType → Exec Results
stub_delete net p groups rtype = pure []

abbrev pub stub : Adapter
stub = record {
  class_name = codes "Stub";
  service = codes "stub";
  aliases = codes "dummy" ∷ [];
  discover_zones = λ net p. pure p;
  createrecords = stub_create;
  deleterecords = stub_delete;
}

abbrev pub registry : Registry
registry = (codes "stub", stub) ∷ []

-- Nobody answers on this network.
abbrev pub net : Net
net = record {
  oracle = λ trace call. raised;
  labels = λ name. some 3;
  is_nameserver = λ name. false;
  system_resolvers = [];
}

abbrev pub hasher : Hasher
hasher = record { verify_and_update = λ presented stored. verdict true none }

abbrev pub vault : Vault
vault = record {
  unlock = λ owner. true;
  reveal = λ owner ciphertext. some ((codes "k", str (codes "v")) ∷ []);
}

abbrev pub clock : Clock
clock = record { seen = 100; charged = 101; persisted = 102; logged = λ n. 103 }

abbrev pub config : DdnsConfig
config = record { rate_limit_per_minute = pos 1; dns_resolvers = [] }

abbrev pub env : Env
env = record {
  net = net;
  registry = registry;
  same_text = text_eq;
  hasher = hasher;
  vault = vault;
  config = config;
  clock = clock;
  commits = true;
}

-- `dev:pw`, from 192.0.2.7.
abbrev pub request : Request
request = record {
  authorization = some (codes "Basic ZGV2OnB3");
  forwarded_for = none;
  user_agent = some (codes "r");
  client_host = some (codes "192.0.2.7");
  hostname = some (codes "H.x.org,n.x.org");
  myip = none;
  format = none;
}

abbrev pub stranger : Request
stranger = record request { authorization = none }

abbrev pub auth : DeviceAuth
auth = record { device = box; user_id = 7; user_email = codes "t@x.org" }
