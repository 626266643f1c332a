-- ===== src/Scope/Isolation.antt =====
-- Whose rows a scope lets through.
use atrium_ddns.Prelude.{ℕ, ◌≡◌, ◌≢◌, ◌⊎◌, inl, inr, Bool, false, refl, none, [], ◌∷◌}
use atrium_ddns.Scope.{
  events_read_all, Model, domain, dns_event, ddns_state, for_user_id, for_principal,
  reaches_all_tenants, predicate, sees,
}

-- A device's scope lets through exactly the rows of its owner, and nothing of a table without tenants.
pub for_user_id_exact :
    (uid : ℕ) (m : Model) (owns : ℕ → Bool)
    → ((m ≡ ddns_state) × (sees (for_user_id uid) m owns ≡ false))
      ⊎ ((m ≢ ddns_state) × (sees (for_user_id uid) m owns ≡ owns uid))
unfolding for_user_id predicate reaches_all_tenants
for_user_id_exact uid ddns_state owns = inl (refl, refl)
for_user_id_exact uid domain owns = inr (λ e. cc e, refl)
for_user_id_exact uid _ owns = inr (λ e. cc e, refl)

-- A scope with no tenant, no permission and no reason lets nothing through.
pub no_tenant_sees_nothing :
    (m : Model) (owns : ℕ → Bool)
    → sees (record { user_id = none; permissions = []; cross_tenant_reason = none }) m owns ≡ false
unfolding predicate reaches_all_tenants
no_tenant_sees_nothing domain owns = refl
no_tenant_sees_nothing _ owns = refl

-- The permission to read every event opens no other table: there its holder sees what its owner sees.
pub events_permission_opens_events_only :
    (uid : ℕ) (m : Model) (owns : ℕ → Bool)
    → m ≢ dns_event
    → sees (for_principal uid (events_read_all ∷ [])) m owns ≡ sees (for_user_id uid) m owns
unfolding for_principal for_user_id predicate reaches_all_tenants
events_permission_opens_events_only uid dns_event owns h = absurd (h refl)
events_permission_opens_events_only uid domain owns h = refl
events_permission_opens_events_only uid _ owns h = refl
