-- ===== src/Tests/Accounts.antt =====
-- Credentials, the rate limit and the tenancy scope.
use atrium_ddns.Prelude.{◌≡◌, ◌≢◌, ◌≤◌, ◌⊎◌, refl, true, false, some, [], ◌∷◌, arith}
use atrium_ddns.Prelude.Int.{pos}
use atrium_ddns.Text.{codes, text_eq}
use atrium_ddns.Scope.{
  domain, ddns_state, for_user_id, sees, select_rate_events, predicate, reaches_all_tenants,
}
use atrium_ddns.Scope.Isolation.{for_user_id_exact}
use atrium_ddns.Auth.Utf8.RoundTrip.{low}
use atrium_ddns.Auth.Header.{BasicCredentials, parse_basic_auth}
use atrium_ddns.Auth.Header.RoundTrip.{basic_header, parse_basic_auth-basic_header}
use atrium_ddns.Auth.Device.{authenticate_device}
use atrium_ddns.Auth.Device.Attribution.{IsJudged, authenticate_device-IsJudged}
use atrium_ddns.Auth.RateLimit.{used_slots}
use atrium_ddns.Auth.RateLimit.Window.{serve_all, final, serve_all_bounded}
use atrium_ddns.Tests.World.{hasher, tables, auth}

abbrev credentials : BasicCredentials
credentials = record { username = codes "dev"; password = codes "pw" }

authenticate_device-IsJudged_example :
    IsJudged text_eq hasher tables
      (some credentials)
      (authenticate_device text_eq hasher tables (some credentials)).0
authenticate_device-IsJudged_example =
    authenticate_device-IsJudged text_eq hasher tables (some credentials)

serve_all_bounded_example :
    used_slots auth
      (serve_all auth (pos 2) (50 ∷ 60 ∷ 60 ∷ []) tables)
      (final 40 (50 ∷ 60 ∷ 60 ∷ []))
    ≤ 2
unfolding used_slots select_rate_events for_user_id predicate reaches_all_tenants
serve_all_bounded_example =
    serve_all_bounded auth (pos 2) 2 40 (50 ∷ 60 ∷ 60 ∷ []) tables refl (omega arith)
      (omega arith, (omega arith, (omega arith, tt)))

for_user_id_exact_example :
    ((domain ≡ ddns_state) × (sees (for_user_id 7) domain (λ uid. true) ≡ false))
    ⊎ ((domain ≢ ddns_state) × (sees (for_user_id 7) domain (λ uid. true) ≡ true))
for_user_id_exact_example = for_user_id_exact 7 domain (λ uid. true)

parse_basic_auth-basic_header_example :
    parse_basic_auth (some (basic_header (codes "dev") (codes "p:")))
    ≡ some (record { username = codes "dev"; password = codes "p:" })
parse_basic_auth-basic_header_example =
    parse_basic_auth-basic_header (codes "dev") (codes "p:")
      (low (omega arith), (low (omega arith), (low (omega arith), tt)))
      (low (omega arith), (low (omega arith), tt)) refl
