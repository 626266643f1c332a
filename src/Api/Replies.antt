-- ===== src/Api/Replies.antt =====
-- What a handler of backend/src/atrium_ddns/router.py ends with, and what the database and the host
-- application do for it.
use atrium_ddns.Prelude.{ℕ, Bool, true, false, ◌≡◌, refl, ap, Option, none, some, if◌then◌else◌}
use atrium_ddns.Text.{Text}
use atrium_ddns.Dict.{Dict}

-- An `HTTPException`, by its status: 403, 404, 409, 422, 429 and 503.
pub data Refusal : Type 0 where
  forbidden not_found conflict unprocessable too_many unavailable : Refusal

pub data Reply {ℓ} (A : Type ℓ) : Type ℓ where
  refused : Refusal → Reply A
  replied : A → Reply A

infixl 5 ◌>>=◌ ◌>>◌
unfoldable pub ◌>>=◌ {ℓ κ} : {A : Type ℓ} {B : Type κ} → Reply A → (A → Reply B) → Reply B
refused r >>= f = refused r
replied a >>= f = f a

unfoldable pub ◌>>◌ {ℓ κ} : {A : Type ℓ} {B : Type κ} → Reply A → Reply B → Reply B
m >> k = m >>= λ _. k

-- `if x is None: raise …`.
unfoldable pub required {ℓ} : {A : Type ℓ} → Refusal → Option A → Reply A
required r none = refused r
required r (some a) = replied a

-- `if test: raise …`.
unfoldable pub refuse_if : Refusal → Bool → Reply Bool
refuse_if r test = if test then refused r else replied test

-- How the unique indexes compare texts, and what encrypts the credentials of a user: `none` is a key that
-- cannot be read.
pub record Database : Type 0 where
  pub same_text : Text → Text → Bool
  pub encrypt : ℕ → Dict Text → Option Text

-- A reply of a chain is one of each of its parts.
module _ {A : Type 0} {B : Type 0} where
  pub >>=-replied :
      (m : Reply A) (f : A → Reply B) {b : B}
      → (m >>= f) ≡ replied b
      → (a : A) × (m ≡ replied a) × (f a ≡ replied b)
  unfolding ◌>>=◌
  >>=-replied (refused r) f h = absurd (cc h)
  >>=-replied (replied a) f h = (a, refl, h)

  pub >>-replied :
      (m : Reply A) (k : Reply B) {b : B}
      → (m >> k) ≡ replied b
      → (a : A) × (m ≡ replied a) × (k ≡ replied b)
  unfolding ◌>>=◌ ◌>>◌
  >>-replied (refused r) k h = absurd (cc h)
  >>-replied (replied a) k h = (a, refl, h)

  pub required-replied :
      (r : Refusal) (o : Option A) (f : A → Reply B) {b : B}
      → (required r o >>= f) ≡ replied b
      → (a : A) × (o ≡ some a) × (f a ≡ replied b)
  unfolding ◌>>=◌ required
  required-replied r none f h = absurd (cc h)
  required-replied r (some a) f h = (a, refl, h)

pub refuse_if-replied :
    {B : Type 0} (r : Refusal) (test : Bool) (k : Reply B) {b : B}
    → (refuse_if r test >> k) ≡ replied b
    → (test ≡ false) × (k ≡ replied b)
unfolding ◌>>=◌ ◌>>◌ refuse_if
refuse_if-replied r true k h = absurd (cc h)
refuse_if-replied r false k h = (refl, h)

-- A chain that goes on, and one that ends here.
pub >>=-goes :
    {A B : Type 0} (m : Reply A) (f : A → Reply B) {a : A} → m ≡ replied a → (m >>= f) ≡ f a
unfolding ◌>>=◌
>>=-goes m f h = rw h refl

pub refuse_if-goes :
    {B : Type 0} (r : Refusal) (test : Bool) (k : Reply B)
    → test ≡ false
    → (refuse_if r test >> k) ≡ k
unfolding ◌>>=◌ ◌>>◌ refuse_if
refuse_if-goes r test k h = rw h refl

pub refuse_if-ends :
    {B : Type 0} (r : Refusal) (test : Bool) (k : Reply B)
    → test ≡ true
    → (refuse_if r test >> k) ≡ refused r
unfolding ◌>>=◌ ◌>>◌ refuse_if
refuse_if-ends r test k h = rw h refl

abbrev from_reply : {A : Type 0} → Reply A → A → A
from_reply (refused r) d = d
from_reply (replied a) d = a

pub replied-inj : {A : Type 0} {a b : A} → replied a ≡ replied b → a ≡ b
replied-inj {a = a} h = ap (λ r. from_reply r a) h
