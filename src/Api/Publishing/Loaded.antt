-- ===== src/Api/Publishing/Loaded.antt =====
-- The row that a page loads, before and after a change of it.
use atrium_ddns.Prelude.{
  ℕ, ◌≡◌, refl, sym, ap, subst, ◌∙◌, Bool, true, some, List, IsIn, any, filter, find?, map_option,
  ◌==◌, ==_iff, ◌&&◌, find?-some, filter-IsIn,
}
use atrium_ddns.Store.{Tables, Domain, Hostname, Selected, DnsEvent, change_hostname}
use atrium_ddns.Store.Selection.{domain_of}
use atrium_ddns.Scope.{DdnsScope, sees, hostname, owns_hostname, get_hostname, select_hostnames}
use atrium_ddns.Nic.Persist.Frame.{find?-change_hostname}
use atrium_ddns.Api.Replies.{replied, required-replied, replied-inj, required, ◌>>=◌}
use atrium_ddns.Api.Publishing.{load_publishing}

pub get_hostname-seen :
    (scope : DdnsScope) (id : ℕ) (t : Tables) (h : Hostname)
    → get_hostname scope t id ≡ some h
    → (h.id ≡ id) × IsIn h t.hostnames × (sees scope hostname (owns_hostname t h) ≡ true)
unfolding get_hostname select_hostnames
get_hostname-seen scope id t h e =
    let p : Hostname → Bool = λ x. sees scope hostname (owns_hostname t x) in
    let (k, m) = find?-some (λ (x : Hostname). x.id == id) (filter p t.hostnames) {a = h} e in
    let (v, i) = filter-IsIn p t.hostnames {x = h} m in ((==_iff h.id id).0 k, i, v)

-- The parts of a loaded row.
pub load_publishing-parts :
    (scope : DdnsScope) (id : ℕ) (t : Tables) (h : Hostname) (d : Domain)
    → load_publishing scope t id ≡ replied (h, d)
    → (get_hostname scope t id ≡ some h) × (domain_of t h ≡ some d) × (d.id ≡ h.domain_id)
unfolding load_publishing
load_publishing-parts scope id t h d e =
    let (h0, e0, r0) = required-replied _ _ _ e in
    let (d0, e1, r1) = required-replied _ _ _ r0 in
    let same : h0 ≡ h = ap (λ (p : Hostname × Domain). p.0) (replied-inj r1) in
    let also : d0 ≡ d = ap (λ (p : Hostname × Domain). p.1) (replied-inj r1) in
    let there : domain_of t h ≡ some d = ap (domain_of t) (sym same) ∙ e1 ∙ ap (λ x. some x) also in
    (
      e0 ∙ ap (λ x. some x) same,
      there,
      (==_iff d.id h.domain_id).0
          (find?-some (λ (x : Domain). x.id == h.domain_id) t.domains {a = d} there).0,
    )

load_publishing-found :
    (scope : DdnsScope) (id : ℕ) (t : Tables) (h : Hostname) (d : Domain)
    → get_hostname scope t id ≡ some h
    → domain_of t h ≡ some d
    → load_publishing scope t id ≡ replied (h, d)
unfolding load_publishing get_hostname select_hostnames required ◌>>=◌
load_publishing-found scope id t h d e f = rw (e, f) refl

get_hostname-changed :
    (scope : DdnsScope) (id : ℕ) (t : Tables) (ss : List Selected) (es : List DnsEvent)
    (f : Hostname → Hostname) (h : Hostname)
    → ((x : Hostname) → (f x).id ≡ x.id)
    → ((x : Hostname) → (f x).domain_id ≡ x.domain_id)
    → get_hostname scope t id ≡ some h
    → get_hostname scope
        (record t { selections = ss; hostnames = change_hostname id f t.hostnames; events = es })
        id
      ≡ some (f h)
unfolding get_hostname select_hostnames
get_hostname-changed scope id t ss es f h fi fd e =
    find?-change_hostname (λ (x : Hostname). sees scope hostname (owns_hostname t x)) f id
      t.hostnames
      (λ x.
        ap
          (λ (k : ℕ).
            sees scope hostname (λ uid. any (λ d. d.id == k && d.user_id == uid) t.domains))
          (fd x))
      fi
    ∙ ap (map_option f) e

-- A change that keeps the row's id and its zone is loaded in place of the row.
pub load_publishing-changed :
    (scope : DdnsScope) (id : ℕ) (t : Tables) (ss : List Selected) (es : List DnsEvent)
    (f : Hostname → Hostname) (h : Hostname) (d : Domain)
    → ((x : Hostname) → (f x).id ≡ x.id)
    → ((x : Hostname) → (f x).domain_id ≡ x.domain_id)
    → load_publishing scope t id ≡ replied (h, d)
    → load_publishing scope
        (record t { selections = ss; hostnames = change_hostname h.id f t.hostnames; events = es })
        id
      ≡ replied (f h, d)
load_publishing-changed scope id t ss es f h d fi fd e =
    let (found, there, at) = load_publishing-parts scope id t h d e in
    let kept : domain_of t (f h) ≡ some d =
      ap (λ (k : ℕ). find? (λ (x : Domain). x.id == k) t.domains) (fd h) ∙ there in
    subst
      (λ k.
        load_publishing scope
          (record t { selections = ss; hostnames = change_hostname k f t.hostnames; events = es })
          id
        ≡ replied (f h, d))
      (sym (get_hostname-seen scope id t h found).0)
      (load_publishing-found scope id
        (record t { selections = ss; hostnames = change_hostname id f t.hostnames; events = es })
        (f h) d (get_hostname-changed scope id t ss es f h fi fd found) kept)
