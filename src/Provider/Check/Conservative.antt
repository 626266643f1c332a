-- ===== src/Provider/Check/Conservative.antt =====
-- When the check says that a name already answers with an address.
use atrium_ddns.Prelude.{
  ◌≡◌, refl, sym, ap, true, &&_parts, Option, none, some, List, [], ◌∷◌, Bool-cases, all, arith,
  inr, inl,
}
use atrium_ddns.Text.{Text, text_eq_sound}
use atrium_ddns.Address.{Address, RecordType, Octets, v4, v6, getip}
use atrium_ddns.Provider.Network.{Net, resolve, Reply, answers, Answer, Trace, ok}
use atrium_ddns.Provider.Network.Outcomes.{Ends, Ends-bind, Ends-any, Ends-equal}
use atrium_ddns.Provider.Check.{
  address_eq, octets_eq, scope_eq, same_address, already_answers, look_up, nameservers_for,
  get_authoritative_nameserver, check_hostnameon_server, text_eq,
}

octets_eq_sound : (o p : Octets) → octets_eq o p ≡ true → o ≡ p
unfolding octets_eq
octets_eq_sound o p h = ground arith

scope_eq_sound : (s t : Option Text) → scope_eq s t ≡ true → s ≡ t
scope_eq_sound none none h = refl
scope_eq_sound (some s) (some t) h = ap some (text_eq_sound s t h)
scope_eq_sound none (some t) h = absurd (cc h)
scope_eq_sound (some s) none h = absurd (cc h)

address_eq_sound : (x y : Address) → address_eq x y ≡ true → x ≡ y
unfolding address_eq
address_eq_sound (v4 o) (v4 p) h = ap v4 (octets_eq_sound o p h)
address_eq_sound (v6 h s) (v6 k t) e =
    let (f, g) = &&_parts (text_eq h k) (scope_eq s t) e in
    rw (text_eq_sound h k f, scope_eq_sound s t g) refl
address_eq_sound (v4 o) (v6 k t) h = absurd (cc h)
address_eq_sound (v6 k t) (v4 o) h = absurd (cc h)

same_address_sound :
    (x y : Option Address) → same_address x y ≡ true → (z : Address) × (x ≡ some z) × (y ≡ some z)
same_address_sound (some x) (some y) h = (x, refl, ap some (sym (address_eq_sound x y h)))
same_address_sound none y h = absurd (cc h)
same_address_sound (some x) none h = absurd (cc h)

-- The reply's first answer is of an address type and is the address, however it is spelled.
pub record Confirms (ip : Text) (reply : Reply) : Type 0 where
  pub first : Answer
  pub others : List Answer
  pub replied : reply ≡ answers (first ∷ others)
  pub typed : first.is_address ≡ true
  pub value : Address
  pub asked : getip ip ≡ some value
  pub answered : getip first.address ≡ some value

already_answers-Confirms :
    (ip : Text) (reply : Reply) → already_answers ip reply ≡ true → Confirms ip reply
unfolding already_answers
already_answers-Confirms ip (answers (first ∷ others)) h = elim (Bool-cases first.is_address) [
  | inr e ↦ absurd (cc (rw e at h))
  | inl e ↦
      let (z, p, q) = same_address_sound (getip ip) (getip first.address) (rw e at h) in
      record {
        first = first;
        others = others;
        replied = refl;
        typed = e;
        value = z;
        asked = p;
        answered = q;
      }
]
already_answers-Confirms ip _ h = absurd (cc h)

-- The check that said yes ended with a lookup of this name and type whose reply confirms the address.
pub record IsConfirmed (net : Net) (hostname ip : Text) (rtype : RecordType) (trace : Trace)
    : Type 0 where
  pub servers : List Text
  pub before : Trace
  pub last : trace ≡ resolve servers hostname rtype ∷ before
  pub confirms : Confirms ip (net.oracle before (resolve servers hostname rtype))

look_up-IsConfirmed :
    (net : Net) (servers : List Text) (hostname ip : Text) (rtype : RecordType) (t : Trace)
    → Ends
        (λ b trace. b ≡ true → IsConfirmed net hostname ip rtype trace)
        (look_up net servers hostname ip rtype t)
look_up-IsConfirmed net servers hostname ip rtype t =
    elim (Bool-cases (all net.is_nameserver servers)) [
      | inr e ↦ rw e tt
      | inl e ↦ rw e (λ h. record {
        servers = servers;
        before = t;
        last = refl;
        confirms = already_answers-Confirms ip (net.oracle t (resolve servers hostname rtype)) h;
      })
    ]

check_lem :
    (net : Net) (resolvers : List Text) (hostname ip : Text) (rtype : RecordType)
    (nameserver : Option Text) (t : Trace)
    → Ends
        (λ b trace. b ≡ true → IsConfirmed net hostname ip rtype trace)
        (check_hostnameon_server net resolvers hostname ip rtype nameserver t)
unfolding check_hostnameon_server
check_lem net resolvers hostname ip rtype (some nameserver) t =
    look_up-IsConfirmed net (nameserver ∷ []) hostname ip rtype t
check_lem net resolvers hostname ip rtype none t =
    Ends-bind (λ _ _. Unit) (λ b trace. b ≡ true → IsConfirmed net hostname ip rtype trace)
      (get_authoritative_nameserver net resolvers hostname)
      (λ nameserver. look_up net (nameservers_for resolvers nameserver) hostname ip rtype) t
      (Ends-any (get_authoritative_nameserver net resolvers hostname t))
      (λ nameserver t' _.
        look_up-IsConfirmed net (nameservers_for resolvers nameserver) hostname ip rtype t')

-- The check says that a name already carries an address only when the last thing it did was to look the
-- name up, and the first answer is that very address.
pub check_hostnameon_server-conservative :
    (net : Net) (resolvers : List Text) (hostname ip : Text) (rtype : RecordType)
    (nameserver : Option Text) (t t' : Trace)
    → check_hostnameon_server net resolvers hostname ip rtype nameserver t ≡ (ok true, t')
    → IsConfirmed net hostname ip rtype t'
check_hostnameon_server-conservative net resolvers hostname ip rtype nameserver t t' h =
    Ends-equal (λ b trace. b ≡ true → IsConfirmed net hostname ip rtype trace)
      (check_hostnameon_server net resolvers hostname ip rtype nameserver t) h
      (check_lem net resolvers hostname ip rtype nameserver t) refl
