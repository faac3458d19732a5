-- ===== src/Stest/Human.antt =====
-- The type Human of stest/char.go and its accessors in stest/setters.go. A pointer in a diff is the
-- value that it points to: a setter points to a fresh variable, and what State and Init take the
-- address of is written by Resolve alone, with the value that it already has.
pub mod Edits
pub mod Resolve
pub mod Key
pub mod Methods
pub mod Wire
pub mod Diff
use mathlib.Core.Option
use synk.Base.{
  ℕ, zero, suc, ◌+◌, ◌%◌, ◌^◌, Text, codes, ℤ, pos, Bool, true, false, ◌||◌, not, Option, none,
  some, List, [], ◌∷◌, ◌++◌, ◌==◌, int_eq, text_eq, if◌then◌else◌,
}
use synk.Base.Number.{itoa}
use synk.Tag.{Tag, zero_tag}
use synk.Wire.Json.{Json, num, str, obj, Fields, end, field}

pub record HumanDiff : Type 0 where
  pub x : Option ℤ
  pub y : Option ℤ
  pub cy : Option ℤ
  pub cx : Option ℤ
  pub ci : Option ℤ
  pub map_id : Option Text

-- `humanDiff{}`
abbrev pub empty_diff : HumanDiff
empty_diff = record { x = none; y = none; cy = none; cx = none; ci = none; map_id = none }

pub record Human : Type 0 where
  pub tag : Tag
  pub x : ℤ
  pub y : ℤ
  pub cx : ℤ
  pub cy : ℤ
  pub ci : ℤ
  pub map_id : Text
  pub diff : HumanDiff

-- `&Human{}`
abbrev pub new_human : Human
new_human = record {
  tag = zero_tag;
  x = pos 0;
  y = pos 0;
  cx = pos 0;
  cy = pos 0;
  ci = pos 0;
  map_id = [];
  diff = empty_diff;
}

unfoldable pub state : Human → HumanDiff
state o = record {
  x = some o.x;
  y = some o.y;
  cy = some o.cy;
  cx = some o.cx;
  ci = some o.ci;
  map_id = some o.map_id;
}

unfoldable pub resolve : Human → HumanDiff × Human
resolve o = (
  o.diff,
  record o {
    x = Option.get_or o.diff.x o.x;
    y = Option.get_or o.diff.y o.y;
    cy = Option.get_or o.diff.cy o.cy;
    cx = Option.get_or o.diff.cx o.cx;
    ci = Option.get_or o.diff.ci o.ci;
    map_id = Option.get_or o.diff.map_id o.map_id;
    tag = record o.tag { v = (o.tag.v + 1) % 2 ^ 64 };
    diff = empty_diff;
  },
)

-- `p != nil`
abbrev pub is_set {ℓ} : {A : Type ℓ} → Option A → Bool
is_set none = false
is_set (some a) = true

unfoldable pub changed : Human → Bool
changed o =
    is_set o.diff.x
    || is_set o.diff.y
    || is_set o.diff.cy
    || is_set o.diff.cx
    || is_set o.diff.ci
    || is_set o.diff.map_id

unfoldable pub diff_of : Human → HumanDiff
diff_of o = o.diff

unfoldable pub copy : Human → Human
copy o = o

unfoldable pub init : Human → Human
unfolding state
init o = record o { diff = state o }

unfoldable pub set_x : ℤ → Human → Human
set_x v o = record o { diff = record o.diff { x = if not (v == o.x) then some v else none } }

unfoldable pub get_prev_x : Human → ℤ
get_prev_x o = o.x

unfoldable pub get_x : Human → ℤ
get_x o = elim o.diff.x [ some v ↦ v | none ↦ o.x ]

unfoldable pub set_y : ℤ → Human → Human
set_y v o = record o { diff = record o.diff { y = if not (v == o.y) then some v else none } }

unfoldable pub get_prev_y : Human → ℤ
get_prev_y o = o.y

unfoldable pub get_y : Human → ℤ
get_y o = elim o.diff.y [ some v ↦ v | none ↦ o.y ]

unfoldable pub set_cy : ℤ → Human → Human
set_cy v o = record o { diff = record o.diff { cy = if not (v == o.cy) then some v else none } }

unfoldable pub get_prev_cy : Human → ℤ
get_prev_cy o = o.cy

unfoldable pub get_cy : Human → ℤ
get_cy o = elim o.diff.cy [ some v ↦ v | none ↦ o.cy ]

unfoldable pub set_cx : ℤ → Human → Human
set_cx v o = record o { diff = record o.diff { cx = if not (v == o.cx) then some v else none } }

unfoldable pub get_prev_cx : Human → ℤ
get_prev_cx o = o.cx

unfoldable pub get_cx : Human → ℤ
get_cx o = elim o.diff.cx [ some v ↦ v | none ↦ o.cx ]

unfoldable pub set_ci : ℤ → Human → Human
set_ci v o = record o { diff = record o.diff { ci = if not (v == o.ci) then some v else none } }

unfoldable pub get_prev_ci : Human → ℤ
get_prev_ci o = o.ci

unfoldable pub get_ci : Human → ℤ
get_ci o = elim o.diff.ci [ some v ↦ v | none ↦ o.ci ]

unfoldable pub set_map_id : Text → Human → Human
set_map_id v o = record o {
  diff = record o.diff { map_id = if not (v == o.map_id) then some v else none };
}

unfoldable pub get_prev_map_id : Human → Text
get_prev_map_id o = o.map_id

unfoldable pub get_map_id : Human → Text
get_map_id o = elim o.diff.map_id [ some v ↦ v | none ↦ o.map_id ]

unfoldable pub type_key : Human → Text
type_key o = codes "c:h"

-- `fmt.Sprintf("%v:%v|%v", mapID, cx, cy)`
unfoldable pub format_key : Text → ℤ → ℤ → Text
format_key map_id cx cy = map_id ++ b':' ∷ (itoa cx ++ b'|' ∷ itoa cy)

unfoldable pub get_sub_key : Human → Text
unfolding format_key get_map_id get_cx get_cy
get_sub_key o = format_key (get_map_id o) (get_cx o) (get_cy o)

unfoldable pub get_prev_sub_key : Human → Text
unfolding format_key get_prev_map_id get_prev_cx get_prev_cy
get_prev_sub_key o = format_key (get_prev_map_id o) (get_prev_cx o) (get_prev_cy o)

-- One field of a marshalled diff; a nil pointer is left out, by `omitempty`.
abbrev pub omit_empty {ℓ} : {A : Type ℓ} → Text → (A → Json) → Option A → Fields → Fields
omit_empty name f none rest = rest
omit_empty name f (some a) rest = field name (f a) rest

-- `json.Marshal` of a humanDiff, by its tags
unfoldable pub marshal_diff : HumanDiff → Json
marshal_diff d = obj (
    omit_empty (codes "x") num d.x (
      omit_empty (codes "y") num d.y (
        omit_empty (codes "cy") num d.cy (
          omit_empty (codes "cx") num d.cx
            (omit_empty (codes "ci") num d.ci (omit_empty (codes "mapID") str d.map_id end))))))

-- `json.Marshal` of a Human, by its tags; the tag is left out, and so is the diff, as unexported.
unfoldable pub marshal_human : Human → Json
marshal_human o = obj (
    field (codes "x") (num o.x) (
      field (codes "y") (num o.y) (
        field (codes "cx") (num o.cx) (
          field (codes "cy") (num o.cy)
            (field (codes "ci") (num o.ci) (field (codes "mapID") (str o.map_id) end))))))
