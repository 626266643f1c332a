-- ===== src/Provider/Zones/RelativeName.antt =====
-- A relative name names the host name again under its hosted zone.
use atrium_ddns.Prelude.{
  ◌≡◌, ◌⊎◌, ◌++◌, ◌∷◌, inl, inr, true, false, arith, length, or_default, Bool-cases, take, ◌-◌, ◌∙◌,
  ap, drop,
}
use atrium_ddns.Text.{Text, codes, text_eq_iff, ends_with, take-append-drop, text_eq_sound}
use atrium_ddns.Dict.{get}
use atrium_ddns.Provider.Account.{Provider}
use atrium_ddns.Provider.Zones.{relative_name, text_eq}

ends_with-split : (p s : Text) → ends_with p s ≡ true → s ≡ take (length s - length p) s ++ p
unfolding ends_with
ends_with-split p s h =
    take-append-drop (length s - length p) s
    ∙ ap (λ (t : Text). take (length s - length p) s ++ t)
        (text_eq_sound (drop (length s - length p) s) p (ground arith))

-- The relative name of a host name is `@` when it is the hosted zone itself, the part in front of
-- the dot and the hosted zone when it lies under it, and else the host name as it is.
pub relative_name_lem :
    (p : Provider) (hostname zonename : Text)
    → let zone = or_default (get p.api_zone_names zonename) zonename in
      let name = relative_name p hostname zonename in
      ((hostname ≡ zone) × (name ≡ codes "@"))
      ⊎ (hostname ≡ name ++ b'.' ∷ zone)
      ⊎ ((ends_with (b'.' ∷ zone) hostname ≡ false) × (name ≡ hostname))
unfolding relative_name
relative_name_lem p hostname zonename =
    let zone = or_default (get p.api_zone_names zonename) zonename in
    elim (Bool-cases (text_eq hostname zone)) [
      | inl apex ↦ inl ((text_eq_iff hostname zone).0 apex, rw apex)
      | inr inner ↦ elim (Bool-cases (ends_with (b'.' ∷ zone) hostname)) [
        | inl under ↦ inr (inl (rw (inner, under) (ends_with-split (b'.' ∷ zone) hostname under)))
        | inr outside ↦ inr (inr (outside, rw (inner, outside)))
      ]
    ]
