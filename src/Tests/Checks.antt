-- ===== src/Tests/Checks.antt =====
-- The check of what a name carries already, and two runs of the endpoints that end badly.
use atrium_ddns.Text.{strip, split_on, split_last, is_space, codes}
use atrium_ddns.Address.{normalise_address, a, getip}
use atrium_ddns.Auth.Header.{client_address}
use atrium_ddns.Prelude.{◌≡◌, refl, true, some, [], ◌∷◌}
use atrium_ddns.Provider.Network.{Net, resolve, answers}
use atrium_ddns.Provider.Check.{check_hostnameon_server, already_answers, address_eq}
use atrium_ddns.Provider.Check.Conservative.{IsConfirmed, check_hostnameon_server-conservative}
use atrium_ddns.Nic.Handlers.{checkip, html}
use atrium_ddns.Tests.World.{request}

-- A name server at 192.0.2.53 that answers everything with 192.0.2.7.
abbrev answering : Net
answering = record {
  oracle = λ trace call. answers (record { is_address = true; address = codes "192.0.2.7" } ∷ []);
  labels = λ name. some 3;
  is_nameserver = λ server. true;
  system_resolvers = [];
}

check_hostnameon_server-conservative_example :
    IsConfirmed answering
      (codes "h.x.org")
      (codes "192.0.2.7")
      a
      (resolve (codes "192.0.2.53" ∷ []) (codes "h.x.org") a ∷ [])
unfolding check_hostnameon_server already_answers address_eq getip
check_hostnameon_server-conservative_example =
    check_hostnameon_server-conservative answering [] (codes "h.x.org") (codes "192.0.2.7") a
      (some (codes "192.0.2.53")) [] (resolve (codes "192.0.2.53" ∷ []) (codes "h.x.org") a ∷ [])
      refl

-- A scope id of an IPv6 address reaches the page as it was sent.
scope_in_page :
    checkip (record request { forwarded_for = some (codes "fe80::1%<b>") })
    ≡ html (
        codes
          "<html><head><title>Current IP Check</title></head><body>Current IP Address: fe80::1%<b></body></html>")
unfolding checkip client_address normalise_address strip split_last is_space split_on
scope_in_page = refl

-- So does a newline in it, into the lines of an answer.
scope_in_line : normalise_address (codes "fe80::1%a\ngood") ≡ some (codes "fe80::1%a\ngood")
unfolding normalise_address
scope_in_line = refl
