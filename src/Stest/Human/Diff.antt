-- ===== src/Stest/Human/Diff.antt =====
-- The getters of humanDiff, and String of Human.
use synk.Base.{
  Eq, ℤ, Text, codes, Option, none, some, ◌++◌, ◌==◌, int_eq, text_eq, ◌≡◌, arith, if◌then◌else◌,
}
use synk.Base.Number.{itoa}
use synk.Tag.{tag_get_id}
use synk.Stest.Human.{
  Human, HumanDiff, resolve, get_x as human_x, get_y as human_y, get_cy as human_cy,
  get_cx as human_cx, get_ci as human_ci, get_map_id as human_map_id, get_prev_x, get_prev_y,
  get_prev_cy, get_prev_cx, get_prev_ci, get_prev_map_id,
}
use synk.Stest.Human.Edits.{IsMinimal, Differs}

unfoldable pub get_x : HumanDiff → Option ℤ
get_x o = o.x

unfoldable pub get_y : HumanDiff → Option ℤ
get_y o = o.y

unfoldable pub get_cy : HumanDiff → Option ℤ
get_cy o = o.cy

unfoldable pub get_cx : HumanDiff → Option ℤ
get_cx o = o.cx

unfoldable pub get_ci : HumanDiff → Option ℤ
get_ci o = o.ci

unfoldable pub get_map_id : HumanDiff → Option Text
get_map_id o = o.map_id

-- `fmt.Sprintf("Human (%s) at (%d, %d) on %s", …)`
unfoldable pub to_string : Human → Text
unfolding tag_get_id human_x human_y human_map_id itoa
to_string o =
    codes "Human ("
    ++ (tag_get_id o.tag
        ++ (codes ") at ("
            ++ (itoa (human_x o)
                ++ (codes ", " ++ (itoa (human_y o) ++ (codes ") on " ++ human_map_id o))))))

-- What a diff holds of a field
abbrev pub news {ℓ} : {A : Type ℓ} ⦃e : Eq A⦄ → A → A → Option A
news prev now = if now == prev then none else some now

-- One field
pub field :
    {A : Type 0} ⦃e : Eq A⦄ (d : Option A) (prev : A)
    → Differs d prev
    → d ≡ news prev (elim d [ some v ↦ v | none ↦ prev ])
field none prev h = ground arith
field (some v) prev h = ground arith

-- The diff that Resolve returns holds the fields that change, with their new values, and no other,
-- if no setter has left a value in it that the field has already.
pub get-resolve :
    (o : Human)
    → IsMinimal o
    → let d = (resolve o).0 in
      (get_x d ≡ news (get_prev_x o) (human_x o))
      × (get_y d ≡ news (get_prev_y o) (human_y o))
      × (get_cy d ≡ news (get_prev_cy o) (human_cy o))
      × (get_cx d ≡ news (get_prev_cx o) (human_cx o))
      × (get_ci d ≡ news (get_prev_ci o) (human_ci o))
      × (get_map_id d ≡ news (get_prev_map_id o) (human_map_id o))
unfolding resolve get_x get_y get_cy get_cx get_ci get_map_id human_x human_y human_cy human_cx
    human_ci human_map_id get_prev_x get_prev_y get_prev_cy get_prev_cx get_prev_ci get_prev_map_id
get-resolve o h = (
  field o.diff.x o.x h.x,
  field o.diff.y o.y h.y,
  field o.diff.cy o.cy h.cy,
  field o.diff.cx o.cx h.cx,
  field o.diff.ci o.ci h.ci,
  field o.diff.map_id o.map_id h.map_id,
)
