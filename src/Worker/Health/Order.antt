-- ===== src/Worker/Health/Order.antt =====
-- Who is checked first.
use atrium_ddns.Prelude.{
  ℕ, zero, suc, ◌≡◌, inl, inr, refl, Bool, true, false, Option, none, some, List, [], ◌∷◌, IsIn,
  All, take, arith, Bool-cases, filter, subst, sym,
}
use atrium_ddns.Store.{Tables, Hostname, Instant}
use atrium_ddns.Scope.{DdnsScope, select_hostnames}
use atrium_ddns.Worker.Config.{DdnsConfig}
use atrium_ddns.Worker.Health.{not_later, insert_due, order_due, due_rows, fetch_due, is_due}

abbrev Before : Hostname → Hostname → Type 0
Before x y = not_later x.dns_checked_at y.dns_checked_at ≡ true

abbrev IsOrdered : List Hostname → Type 0
IsOrdered [] = Unit
IsOrdered (x ∷ xs) = All (Before x) xs × IsOrdered xs

not_later_total : (x y : Option Instant) → not_later x y ≡ false → not_later y x ≡ true
not_later_total none y h = absurd (cc h)
not_later_total (some x) none h = refl
not_later_total (some x) (some y) h = ground arith

not_later_trans :
    (x y z : Option Instant) → not_later x y ≡ true → not_later y z ≡ true → not_later x z ≡ true
not_later_trans none y z h k = refl
not_later_trans (some x) none z h k = absurd (cc h)
not_later_trans (some x) (some y) none h k = absurd (cc k)
not_later_trans (some x) (some y) (some z) h k = ground arith

All-Before_trans :
    (x y : Hostname) (zs : List Hostname) → Before x y → All (Before y) zs → All (Before x) zs
All-Before_trans x y [] h a = tt
All-Before_trans x y (z ∷ zs) h a = (
  not_later_trans x.dns_checked_at y.dns_checked_at z.dns_checked_at h a.0,
  All-Before_trans x y zs h a.1,
)

insert_due-All :
    (h w : Hostname) (xs : List Hostname)
    → Before w h
    → All (Before w) xs
    → All (Before w) (insert_due h xs)
unfolding insert_due
insert_due-All h w [] b a = (b, tt)
insert_due-All h w (x ∷ xs) b a = ground (arith, insert_due-All h w xs, a)

insert_due-IsOrdered :
    (h : Hostname) (xs : List Hostname) → IsOrdered xs → IsOrdered (insert_due h xs)
unfolding insert_due
insert_due-IsOrdered h [] o = (tt, tt)
insert_due-IsOrdered h (x ∷ xs) o =
    elim (Bool-cases (not_later h.dns_checked_at x.dns_checked_at)) [
      | inl e ↦ rw e ((e, All-Before_trans h x xs e o.0), o)
      | inr e ↦ rw e (
        insert_due-All h x xs (not_later_total h.dns_checked_at x.dns_checked_at e) o.0,
        insert_due-IsOrdered h xs o.1,
      )
    ]

order_due-IsOrdered : (xs : List Hostname) → IsOrdered (order_due xs)
unfolding order_due
order_due-IsOrdered [] = tt
order_due-IsOrdered (x ∷ xs) = insert_due-IsOrdered x (order_due xs) (order_due-IsOrdered xs)

All-IsIn_lem : (w x : Hostname) (xs : List Hostname) → All (Before w) xs → IsIn x xs → Before w x
All-IsIn_lem w x [] a m = elim m [ ]
All-IsIn_lem w x (y ∷ ys) a (inl e) = subst (Before w) (sym e) a.0
All-IsIn_lem w x (y ∷ ys) a (inr m) = All-IsIn_lem w x ys a.1 m

-- One row more in the fetch does not change the batch.
IsOrdered-take :
    (n : ℕ) (xs : List Hostname) (x y : Hostname)
    → IsOrdered xs
    → IsIn y (take n (take (suc n) xs))
    → IsIn x xs
    → ¬ IsIn x (take n (take (suc n) xs))
    → Before y x
IsOrdered-take zero xs x y o m i out = elim m [ ]
IsOrdered-take (suc n) [] x y o m i out = elim m [ ]
IsOrdered-take (suc n) (z ∷ zs) x y o m (inl e) out = absurd (out (inl e))
IsOrdered-take (suc n) (z ∷ zs) x y o (inl e) (inr i) out =
    subst (λ w. Before w x) (sym e) (All-IsIn_lem z x zs o.0 i)
IsOrdered-take (suc n) (z ∷ zs) x y o (inr m) (inr i) out =
    IsOrdered-take n zs x y o.1 m i (λ j. out (inr j))

-- No due name is left for a later run in favour of one that was checked after it: a name that is in the
-- batch was checked no later than a due name that is not, and one that was never checked comes first.
pub fetch_due-IsOldest :
    (due_only : Bool) (c : DdnsConfig) (scope : DdnsScope) (now : Instant) (t : Tables)
    (taken left : Hostname)
    → IsIn taken (take c.health_check_batch_size (fetch_due due_only c scope now t))
    → IsIn left (due_rows due_only c scope now t)
    → ¬ IsIn left (take c.health_check_batch_size (fetch_due due_only c scope now t))
    → not_later taken.dns_checked_at left.dns_checked_at ≡ true
unfolding due_rows
fetch_due-IsOldest due_only c scope now t taken left m i out =
    let rows = filter (is_due due_only c now) (select_hostnames scope t) in
    IsOrdered-take c.health_check_batch_size (order_due rows) left taken (order_due-IsOrdered rows)
      m i out
