-- ===== src/Stest/Orc.antt =====
-- The type Orc of stest/char.go and its accessors in stest/setters.go. Pointers in a diff are
-- modelled as in Human.
pub mod Edits
pub mod Resolve
pub mod Methods
pub mod Diff
use mathlib.Core.Option
use synk.Base.{
  ℕ, ◌+◌, ◌%◌, ◌^◌, Text, codes, pos, Bool, ◌||◌, not, Option, none, some, [], ◌==◌, text_eq,
  if◌then◌else◌,
}
use synk.Tag.{Tag, zero_tag}
use synk.Wire.Json.{Json, num, str, obj, Fields, end, field}
use synk.Stest.Human.{is_set, omit_empty}

pub record OrcDiff : Type 0 where
  pub id : Option Text
  pub sub_key : Option Text
  pub name : Option Text

-- `orcDiff{}`
abbrev pub empty_diff : OrcDiff
empty_diff = record { id = none; sub_key = none; name = none }

pub record Orc : Type 0 where
  pub tag : Tag
  pub id : Text
  pub sub_key : Text
  pub name : Text
  pub diff : OrcDiff

-- `&Orc{}`
abbrev pub new_orc : Orc
new_orc = record { tag = zero_tag; id = []; sub_key = []; name = []; diff = empty_diff }

unfoldable pub state : Orc → OrcDiff
state o = record { id = some o.id; sub_key = some o.sub_key; name = some o.name }

unfoldable pub resolve : Orc → OrcDiff × Orc
resolve o = (
  o.diff,
  record o {
    id = Option.get_or o.diff.id o.id;
    sub_key = Option.get_or o.diff.sub_key o.sub_key;
    name = Option.get_or o.diff.name o.name;
    tag = record o.tag { v = (o.tag.v + 1) % 2 ^ 64 };
    diff = empty_diff;
  },
)

unfoldable pub changed : Orc → Bool
changed o = is_set o.diff.id || is_set o.diff.sub_key || is_set o.diff.name

unfoldable pub diff_of : Orc → OrcDiff
diff_of o = o.diff

unfoldable pub copy : Orc → Orc
copy o = o

unfoldable pub init : Orc → Orc
unfolding state
init o = record o { diff = state o }

unfoldable pub set_id : Text → Orc → Orc
set_id v o = record o { diff = record o.diff { id = if not (v == o.id) then some v else none } }

unfoldable pub get_prev_id : Orc → Text
get_prev_id o = o.id

unfoldable pub get_id : Orc → Text
get_id o = elim o.diff.id [ some v ↦ v | none ↦ o.id ]

unfoldable pub set_sub_key : Text → Orc → Orc
set_sub_key v o = record o {
  diff = record o.diff { sub_key = if not (v == o.sub_key) then some v else none };
}

unfoldable pub get_prev_sub_key : Orc → Text
get_prev_sub_key o = o.sub_key

unfoldable pub get_sub_key : Orc → Text
get_sub_key o = elim o.diff.sub_key [ some v ↦ v | none ↦ o.sub_key ]

unfoldable pub set_name : Text → Orc → Orc
set_name v o = record o {
  diff = record o.diff { name = if not (v == o.name) then some v else none };
}

unfoldable pub get_prev_name : Orc → Text
get_prev_name o = o.name

unfoldable pub get_name : Orc → Text
get_name o = elim o.diff.name [ some v ↦ v | none ↦ o.name ]

unfoldable pub type_key : Orc → Text
type_key o = codes "c:o"

-- `json.Marshal` of an orcDiff, by its tags
unfoldable pub marshal_diff : OrcDiff → Json
marshal_diff d = obj (
    omit_empty (codes "id") str d.id
      (omit_empty (codes "subKey") str d.sub_key (omit_empty (codes "name") str d.name end)))

-- `json.Marshal` of an Orc: the fields of the embedded tag by their tags, then its own.
unfoldable pub marshal_orc : Orc → Json
marshal_orc o = obj (
    field (codes "_id") (str o.tag.tag_id) (
      field (codes "sub") (str o.tag.tag_sub) (
        field (codes "t") (str o.tag.tag_type) (
          field (codes "v") (num (pos o.tag.v)) (
            field (codes "id") (str o.id)
              (field (codes "SubKey") (str o.sub_key) (field (codes "Name") (str o.name) end)))))))
