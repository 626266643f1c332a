-- ===== src/Api/Sound.antt =====
-- The tables that the interface keeps, and its operations as steps between them.
pub mod Domains
pub mod Steps
pub mod Rows
pub mod Zones
pub mod Names
pub mod Published
pub mod Kept
use atrium_ddns.Prelude.{ℕ, ◌≡◌, ◌≢◌, true, List, All, IsIn, Option}
use atrium_ddns.Text.{Text}
use atrium_ddns.Zone.{zone_contains}
use atrium_ddns.Store.{Tables, Domain, Hostname}

-- An id is one row's.
abbrev pub IsKeyed : List Domain → Type 0
IsKeyed ds = (d e : Domain) → IsIn d ds → IsIn e ds → d.id ≡ e.id → d ≡ e

-- A host name's zone is there, and the name lies in it.
abbrev pub IsHoused : List Domain → Hostname → Type 0
IsHoused ds h =
    (d : Domain) × IsIn d ds × (d.id ≡ h.domain_id) × (zone_contains d.name h.name ≡ true)

abbrev pub IsSound : Tables → Type 0
IsSound t = IsKeyed t.domains × ((h : Hostname) → IsIn h t.hostnames → IsHoused t.domains h)
