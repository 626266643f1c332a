-- ===== src/Api/Publishing/Chosen.antt =====
-- What a name publishes to after a choice.
use atrium_ddns.Prelude.{
  ℕ, ◌≡◌, refl, sym, ap, subst, ◌∙◌, true, false, List, [], ◌∷◌, IsIn, ◌==◌, arith, filter-IsIn,
}
use atrium_ddns.Store.{Tables, Domain, Backend, Hostname, change_hostname}
use atrium_ddns.Store.Selection.{domain_backends, resolve_backends, is_chosen, pick}
use atrium_ddns.Scope.{DdnsScope, sees, hostname, owns_hostname}
use atrium_ddns.Api.Publishing.Loaded.{
  get_hostname-seen, load_publishing-parts, load_publishing-changed,
}
use atrium_ddns.Api.Replies.{replied, refuse_if-replied, >>=-replied, replied-inj}
use atrium_ddns.Api.Publishing.{
  HostnamePublishingIn, HostnamePublishingOut, load_publishing, publishing_out,
  set_hostname_publishing, select_backends, set_ttl, requested_ids, distinct, has_id, has_none,
  ids_of, unknown,
}
use atrium_ddns.Api.Publishing.Lists.{filter_same, has_id-distinct, chosen_of, pick-chosen}
use atrium_ddns.Api.Publishing.Choices.{is_chosen-select_backends, is_chosen-others}

-- What is published after the choice.
resolve_backends-chosen :
    (scope : DdnsScope) (t t' : Tables) (h h' : Hostname) (ids : List ℕ)
    → IsIn h t.hostnames
    → sees scope hostname (owns_hostname t h) ≡ true
    → t'.selections ≡ select_backends scope t h.id (distinct ids)
    → t'.backends ≡ t.backends
    → h'.id ≡ h.id
    → h'.domain_id ≡ h.domain_id
    → has_none (unknown (distinct ids) (domain_backends t h.domain_id)) ≡ true
    → resolve_backends t' h' ≡ chosen_of (distinct ids) (domain_backends t h.domain_id)
unfolding resolve_backends
resolve_backends-chosen scope t t' h h' ids m v es eb eh ed known =
    let bs : List Backend = domain_backends t h.domain_id in
    rw (es, eb, eh, ed)
      (ap (λ cs. pick cs bs)
          (filter_same
            (λ (b : Backend). is_chosen (select_backends scope t h.id (distinct ids)) h.id b.id)
            (λ b. has_id (distinct ids) b.id) t.backends
            (λ b mb. is_chosen-select_backends scope t h (distinct ids) b.id m v))
        ∙ pick-chosen (distinct ids) t.backends bs
            (λ b mb.
              (filter-IsIn (λ (x : Backend). x.domain_id == h.domain_id) t.backends {x = b} mb).1)
            known)

chosen_of-distinct :
    (ids : List ℕ) (bs : List Backend) → chosen_of (distinct ids) bs ≡ chosen_of ids bs
unfolding distinct
chosen_of-distinct [] bs = refl
chosen_of-distinct (id ∷ ids) bs =
    filter_same (λ (b : Backend). has_id (distinct (id ∷ ids)) b.id) (λ b. has_id (id ∷ ids) b.id)
      bs (λ b m. has_id-distinct (id ∷ ids) b.id)

-- The tables after a choice.
abbrev pub with_choice : DdnsScope → Hostname → HostnamePublishingIn → Tables → Tables
with_choice scope h body t = record t {
  selections = select_backends scope t h.id (distinct (requested_ids body));
  hostnames = change_hostname h.id (set_ttl body.ttl) t.hostnames;
}

load_publishing-again :
    (scope : DdnsScope) (id : ℕ) (body : HostnamePublishingIn) (t : Tables) (h : Hostname)
    (d : Domain)
    → load_publishing scope t id ≡ replied (h, d)
    → load_publishing scope (with_choice scope h body t) id ≡ replied (set_ttl body.ttl h, d)
load_publishing-again scope id body t h d e =
    load_publishing-changed scope id t
      (select_backends scope t h.id (distinct (requested_ids body))) t.events (set_ttl body.ttl) h d
      (λ x. refl) (λ x. refl) e

-- A choice that is taken: of the name that was asked for, with the TTL asked for; it is published to the
-- bindings asked for, in the order of its zone, or to all of the zone's when none is asked for; and what
-- any other name is published to stays.
pub record IsChosen (scope : DdnsScope) (id : ℕ) (body : HostnamePublishingIn) (t : Tables)
    (out : HostnamePublishingOut) (t' : Tables) : Type 0 where
  pub h : Hostname
  pub d : Domain
  pub loaded : load_publishing scope t id ≡ replied (h, d)
  pub reloaded : load_publishing scope t' id ≡ replied (set_ttl body.ttl h, d)
  pub ttl : out.ttl ≡ body.ttl
  pub publishes_to :
      out.publishes_to ≡ ids_of (chosen_of (requested_ids body) (domain_backends t h.domain_id))
  pub others :
      (x : Hostname) → (x.id == h.id) ≡ false → resolve_backends t' x ≡ resolve_backends t x

resolve_backends-others :
    (scope : DdnsScope) (body : HostnamePublishingIn) (t : Tables) (h x : Hostname)
    → (x.id == h.id) ≡ false
    → resolve_backends (with_choice scope h body t) x ≡ resolve_backends t x
unfolding resolve_backends
resolve_backends-others scope body t h x n =
    ap (λ cs. pick cs (domain_backends t x.domain_id))
      (filter_same
        (λ (b : Backend).
          is_chosen (select_backends scope t h.id (distinct (requested_ids body))) x.id b.id)
        (λ b. is_chosen t.selections x.id b.id) t.backends
        (λ b m. is_chosen-others scope t h.id x.id (distinct (requested_ids body)) b.id n))

choice-IsChosen :
    (scope : DdnsScope) (id : ℕ) (body : HostnamePublishingIn) (t : Tables) (h : Hostname)
    (d : Domain)
    → load_publishing scope t id ≡ replied (h, d)
    → has_none (unknown (distinct (requested_ids body)) (domain_backends t d.id)) ≡ true
    → IsChosen scope id body t
        (publishing_out (with_choice scope h body t) (set_ttl body.ttl h) d)
        (with_choice scope h body t)
unfolding publishing_out
choice-IsChosen scope id body t h d loaded known =
    let (found, there, at) = load_publishing-parts scope id t h d loaded in
    let (same, m, v) = get_hostname-seen scope id t h found in
    record {
      h = h;
      d = d;
      loaded = loaded;
      reloaded = load_publishing-again scope id body t h d loaded;
      ttl = refl;
      publishes_to = ap ids_of (
          resolve_backends-chosen scope t (with_choice scope h body t) h (set_ttl body.ttl h)
            (requested_ids body) m v refl refl refl refl
            (subst
              (λ k. has_none (unknown (distinct (requested_ids body)) (domain_backends t k)) ≡ true)
              at known)
          ∙ chosen_of-distinct (requested_ids body) (domain_backends t h.domain_id));
      others = resolve_backends-others scope body t h;
    }

-- A choice of bindings and of a TTL that is answered was for a name in reach of the caller, which then has
-- that TTL and is published to the bindings asked for, in the order of its zone, or to all of its zone's
-- when none is asked for; what every other name is published to stays.
pub set_hostname_publishing-IsChosen :
    (scope : DdnsScope) (id : ℕ) (body : HostnamePublishingIn) (t : Tables)
    {out : HostnamePublishingOut} {t' : Tables}
    → set_hostname_publishing scope id body t ≡ replied (out, t')
    → IsChosen scope id body t out t'
unfolding set_hostname_publishing publishing_out
set_hostname_publishing-IsChosen scope id body t {out} {t'} e =
    let (x1, h1) = refuse_if-replied _ _ _ e in
    let (p, loaded, h2) = >>=-replied (load_publishing scope t id) _ h1 in
    let (known, h3) = refuse_if-replied _ _ _ h2 in
    let (again, reloaded, h4) =
      >>=-replied (load_publishing scope (with_choice scope p.0 body t) id) _ h3 in
    let here : again ≡ (set_ttl body.ttl p.0, p.1) =
      replied-inj (sym reloaded ∙ load_publishing-again scope id body t p.0 p.1 loaded) in
    let all_known : has_none (unknown (distinct (requested_ids body)) (domain_backends t p.1.id))
        ≡ true =
      ground (arith, known) in
    subst (λ (r : HostnamePublishingOut × Tables). IsChosen scope id body t r.0 r.1)
      (ap
          (λ (a : Hostname × Domain).
            (publishing_out (with_choice scope p.0 body t) a.0 a.1, with_choice scope p.0 body t))
          (sym here)
        ∙ replied-inj h4)
      (choice-IsChosen scope id body t p.0 p.1 loaded all_known)
