-- ===== src/Nic/Params.antt =====
-- The checks of the query parameters in `update` and `delete`, in their order.
use atrium_ddns.Prelude.{Option, none, some, List, [], ◌∷◌}
use atrium_ddns.Text.{Text}
use atrium_ddns.Address.{RecordType, normalise_address, getiptype}
use atrium_ddns.Hostname.{split_hostnames}
use atrium_ddns.Status.{Status, unknown_service, notfqdn}
use atrium_ddns.Auth.Header.{Request}

-- `not value`, of an optional parameter.
abbrev given : Option Text → Option Text
given none = none
given (some []) = none
given (some (c ∷ s)) = some (c ∷ s)

-- What the checks of the parameters come to: a refusal with the address it is logged with, or what the
-- DNS phase is run with.
pub data UpdateParams : Type 0 where
  update_refused : Status → Option Text → UpdateParams
  update_asked : Text → RecordType → List Text → UpdateParams

abbrev update_typed : Text → List Text → Option RecordType → UpdateParams
update_typed ip requested none = update_refused unknown_service (some ip)
update_typed ip requested (some rtype) = update_asked ip rtype requested

abbrev update_named : Text → Option (List Text) → UpdateParams
update_named ip none = update_refused notfqdn (some ip)
update_named ip (some requested) = update_typed ip requested (getiptype ip)

abbrev update_addressed : Text → Option Text → UpdateParams
update_addressed hostname none = update_refused unknown_service none
update_addressed hostname (some ip) = update_named ip (split_hostnames hostname)

abbrev update_raw : Text → Option Text → UpdateParams
update_raw hostname none = update_refused unknown_service none
update_raw hostname (some raw_ip) = update_addressed hostname (normalise_address raw_ip)

-- `myip_param or client_ip`.
abbrev myip_or : Option Text → Option Text → Option Text
myip_or none client_ip = client_ip
myip_or (some ip) client_ip = some ip

abbrev update_given : Option Text → Option Text → Option Text → UpdateParams
update_given none myip client_ip = update_refused unknown_service none
update_given (some hostname) myip client_ip =
    update_raw hostname (given (myip_or (given myip) client_ip))

-- The checks of `update`, in its order.
unfoldable pub update_params : Request → Option Text → UpdateParams
update_params request client_ip = update_given (given request.hostname) request.myip client_ip

-- The checks of `delete`. There the address only chooses a family, and none means both.
pub data DeleteParams : Type 0 where
  delete_refused : Status → Option Text → DeleteParams
  delete_asked : Option Text → Option RecordType → List Text → DeleteParams

abbrev delete_named : Option Text → Option RecordType → Option (List Text) → DeleteParams
delete_named ip rtype none = delete_refused notfqdn ip
delete_named ip rtype (some requested) = delete_asked ip rtype requested

abbrev delete_addressed : Text → Option Text → DeleteParams
delete_addressed hostname none = delete_refused unknown_service none
delete_addressed hostname (some ip) =
    delete_named (some ip) (getiptype ip) (split_hostnames hostname)

abbrev delete_family : Text → Option Text → DeleteParams
delete_family hostname none = delete_named none none (split_hostnames hostname)
delete_family hostname (some myip) = delete_addressed hostname (normalise_address myip)

abbrev delete_given : Option Text → Option Text → DeleteParams
delete_given none myip = delete_refused unknown_service none
delete_given (some hostname) myip = delete_family hostname (given myip)

unfoldable pub delete_params : Request → DeleteParams
delete_params request = delete_given (given request.hostname) request.myip
