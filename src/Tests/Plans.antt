-- ===== src/Tests/Plans.antt =====
-- The plans of the request, and the results of its names.
use atrium_ddns.Nic.Dns.{BackendPlan}
use atrium_ddns.Prelude.{none, some, [], ◌∷◌, List}
use atrium_ddns.Status.{Status}
use atrium_ddns.Nic.Dns.{HostnameResult, HostnamePlan}
use atrium_ddns.Text.{Text, codes}
use atrium_ddns.Provider.Account.{str}
use atrium_ddns.Prelude.Int.{pos}

abbrev pub caller : Text
caller = codes "192.0.2.7"

abbrev pub names : List Text
names = codes "H.x.org" ∷ codes "n.x.org" ∷ []

abbrev pub home_backend : BackendPlan
home_backend = record {
  backend_id = 5;
  backend_type = codes "stub";
  domains = codes "x.org" ∷ [];
  credentials = some ((codes "k", str (codes "v")) ∷ []);
  config = [];
  ttl = pos 60;
}

abbrev pub home_plan : HostnamePlan
home_plan = record {
  requested = codes "H.x.org";
  lookup = codes "h.x.org";
  hostname_id = some 9;
  domain_id = some 3;
  domain_name = some (codes "x.org");
  backends = home_backend ∷ [];
}

abbrev pub plans : List HostnamePlan
plans =
    home_plan
    ∷ record {
      requested = codes "n.x.org";
      lookup = codes "n.x.org";
      hostname_id = none;
      domain_id = none;
      domain_name = none;
      backends = [];
    }
    ∷ []

abbrev pub home_result : Status → HostnameResult
home_result status = record {
  plan = home_plan;
  attempts = (codes "stub", status) ∷ [];
  status = status;
}
