-- ===== src/Dict/Laws.antt =====
-- What a dictionary holds after a write.
use atrium_ddns.Prelude.{◌≡◌, refl, some, [], ◌∷◌, arith, inl, inr, IsIn, ◌⊎◌, if◌then◌else◌}
use atrium_ddns.Text.{Text, text_eq, text_eq_iff}
use atrium_ddns.Dict.{Dict, get, put, keys}

module _ {ℓ} {V : Type ℓ} where
  pub get-put :
      (d : Dict V) (k j : Text) (v : V)
      → get (put d k v) j ≡ (if text_eq k j then some v else get d j)
  get-put [] k j v = refl
  get-put ((i, w) ∷ d) k j v =
      ground (arith, text_eq_iff i k, text_eq_iff i j, text_eq_iff k j, get-put d k j v)

  pub keys-put :
      (d : Dict V) (k j : Text) (v : V) → IsIn j (keys (put d k v)) → IsIn j (keys d) ⊎ (j ≡ k)
  keys-put [] k j v (inl e) = inr e
  keys-put [] k j v (inr h) = elim h [ ]
  keys-put ((i, w) ∷ d) k j v h = ground (arith, keys-put d k j v)
