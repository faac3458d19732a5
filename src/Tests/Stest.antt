-- ===== src/Tests/Stest.antt =====
-- Humans with concrete edits.
use synk.Base.{codes, pos, negsuc, false, List, [], ◌∷◌, ◌≡◌, refl, ◌↔◌}
use mathlib.Core.List.{foldl}
use synk.Object.{next_version}
use synk.Stest.Human.{resolve, changed, get_sub_key, get_map_id, get_cx, get_cy}
use synk.Stest.Human.Edits.{
  Edit, to_x, to_cx, to_map_id, edit, assign, current, previous, IsMinimal, current-edits,
}
use synk.Stest.Human.Resolve.{apply, resolve_lem, apply-resolve-edits}
use synk.Stest.Human.Key.{get_sub_key_iff}
use synk.Tests.{hero, moving}

abbrev edits : List Edit
edits = to_x (pos 5) ∷ to_cx (negsuc 3) ∷ to_map_id (codes "n") ∷ to_x (pos 1) ∷ []

apply-resolve-edits_example :
    apply (resolve (foldl edit hero edits)).0 (previous hero) ≡ foldl assign (previous hero) edits
unfolding previous current
apply-resolve-edits_example = apply-resolve-edits hero edits refl

current-edits_example :
    (current (foldl edit hero edits) ≡ foldl assign (current hero) edits)
    × (previous (foldl edit hero edits) ≡ previous hero)
current-edits_example = current-edits hero edits

resolve_lem_example :
    (previous (resolve moving).1 ≡ current moving)
    × (current (resolve moving).1 ≡ current moving)
    × (apply (resolve moving).0 (previous moving) ≡ previous (resolve moving).1)
    × (changed (resolve moving).1 ≡ false)
    × ((resolve moving).1.tag.v ≡ next_version moving.tag.v)
resolve_lem_example = resolve_lem moving

hero-IsMinimal : IsMinimal hero
hero-IsMinimal = record { x = tt; y = tt; cx = tt; cy = tt; ci = tt; map_id = tt }

get_sub_key_iff_example : (get_sub_key hero ≡ get_sub_key moving) ↔ (
    (get_map_id hero ≡ get_map_id moving)
    × (get_cx hero ≡ get_cx moving)
    × (get_cy hero ≡ get_cy moving))
get_sub_key_iff_example = get_sub_key_iff hero moving
