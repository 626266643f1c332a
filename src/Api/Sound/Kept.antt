-- ===== src/Api/Sound/Kept.antt =====
-- No operation of the interface leaves a host name outside its zone.
use atrium_ddns.Store.{Tables}
use atrium_ddns.Api.Replies.{Database}
use atrium_ddns.Api.Backends.{Shipped}
use atrium_ddns.Api.Sound.{IsSound}
use atrium_ddns.Api.Sound.Steps.{
  stays, goes, creates_domain, renames_domain, deletes_domain, creates_backend, updates_backend,
  deletes_backend, creates_hostname, assigns_hostname, deletes_hostname, creates_device,
  rotates_secret, updates_device, chooses_backends, adopts_zone, Step, Steps, deletes_device,
}
use atrium_ddns.Api.Sound.Zones.{
  create_domain-IsSound, rename_domain-IsSound, delete_domain-IsSound,
}
use atrium_ddns.Api.Sound.Names.{
  create_hostname-IsSound, assign_hostname-IsSound, delete_hostname-IsSound,
}
use atrium_ddns.Api.Sound.Published.{set_hostname_publishing-IsSound, adopt_zone-IsSound}
use atrium_ddns.Api.Sound.Rows.{
  SameNames-IsSound, create_backend-SameNames, update_backend-SameNames, delete_backend-SameNames,
  create_device-SameNames, rotate_device_secret-SameNames, update_device-SameNames,
  delete_device-IsSound,
}

Step-IsSound :
    (db : Database) (shipped : Shipped) (t t' : Tables)
    → Step db shipped t t'
    → IsSound t
    → IsSound t'
Step-IsSound db shipped t t' (creates_domain scope id backend_id name backend d fresh h) s =
    create_domain-IsSound db shipped scope id backend_id name backend t fresh h s
Step-IsSound db shipped t t' (renames_domain scope id name d h) s =
    rename_domain-IsSound db scope id name t h s
Step-IsSound db shipped t t' (deletes_domain scope id h) s = delete_domain-IsSound scope id t h s
Step-IsSound db shipped t t' (creates_backend scope id domain_id body b h) s =
    SameNames-IsSound t t' (create_backend-SameNames db shipped scope id domain_id body t h) s
Step-IsSound db shipped t t' (updates_backend scope id body b h) s =
    SameNames-IsSound t t' (update_backend-SameNames db shipped scope id body t h) s
Step-IsSound db shipped t t' (deletes_backend scope id h) s =
    SameNames-IsSound t t' (delete_backend-SameNames scope id t h) s
Step-IsSound db shipped t t' (creates_hostname scope id body h r) s =
    create_hostname-IsSound db scope id body t r s
Step-IsSound db shipped t t' (assigns_hostname scope id body h r) s =
    assign_hostname-IsSound db scope id body t r s
Step-IsSound db shipped t t' (deletes_hostname scope id h) s =
    delete_hostname-IsSound scope id t h s
Step-IsSound db shipped t t' (creates_device scope id issued name limit d h) s =
    SameNames-IsSound t t' (create_device-SameNames db scope id issued name limit t h) s
Step-IsSound db shipped t t' (rotates_secret scope id issued d h) s =
    SameNames-IsSound t t' (rotate_device_secret-SameNames scope id issued t h) s
Step-IsSound db shipped t t' (updates_device scope id body d h) s =
    SameNames-IsSound t t' (update_device-SameNames db scope id body t h) s
Step-IsSound db shipped t t' (deletes_device scope id h) s = delete_device-IsSound scope id t h s
Step-IsSound db shipped t t' (chooses_backends scope id body out h) s =
    set_hostname_publishing-IsSound scope id body t h s
Step-IsSound db shipped t t' (adopts_zone repr logged scope id x h) s =
    adopt_zone-IsSound repr logged scope id t h s

-- Whatever operations of the interface, manual updates aside, follow each other, by whatever callers:
-- if at first each zone has its own id and each host name's zone is there and contains the name, then
-- so it is at the end.
pub Steps-IsSound :
    (db : Database) (shipped : Shipped) (t t' : Tables)
    → Steps db shipped t t'
    → IsSound t
    → IsSound t'
Steps-IsSound db shipped t t' stays s = s
Steps-IsSound db shipped t t' (goes {t' = u} step rest) s =
    Steps-IsSound db shipped u t' rest (Step-IsSound db shipped t u step s)
