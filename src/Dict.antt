-- ===== src/Dict.antt =====
-- A Python `dict` with texts for keys, in insertion order.
pub mod Laws
use atrium_ddns.Prelude.{Option, none, some, List, [], ◌∷◌, if◌then◌else◌}
use atrium_ddns.Text.{Text, text_eq}

abbrev pub Dict {ℓ} : Type ℓ → Type ℓ
Dict V = List (Text × V)

module _ {ℓ} {V : Type ℓ} where
  -- `d.get(k)`.
  abbrev pub get : Dict V → Text → Option V
  get [] k = none
  get ((j, v) ∷ d) k = let rest = get d k in if text_eq j k then some v else rest

  -- `d[k] = v`: a key that is there keeps its place.
  abbrev pub put : Dict V → Text → V → Dict V
  put [] k v = (k, v) ∷ []
  put ((j, w) ∷ d) k v = let rest = put d k v in if text_eq j k then (j, v) ∷ d else (j, w) ∷ rest

  -- `del d[k]`.
  abbrev pub remove : Dict V → Text → Dict V
  remove [] k = []
  remove ((j, w) ∷ d) k = let rest = remove d k in if text_eq j k then d else (j, w) ∷ rest

  -- `d.keys()`.
  abbrev pub keys : Dict V → List Text
  keys [] = []
  keys ((j, v) ∷ d) = j ∷ keys d

  -- `d.update(e)`.
  abbrev pub update : Dict V → Dict V → Dict V
  update d [] = d
  update d ((k, v) ∷ e) = update (put d k v) e
