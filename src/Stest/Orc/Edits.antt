-- ===== src/Stest/Orc/Edits.antt =====
-- Any sequence of setters, as a client of Orc sees it.
use synk.Base.{Text, Option, none, some, List, [], ◌∷◌, ◌≡◌, ◌≢◌, refl, ap, ◌∙◌, arith}
use mathlib.Core.List.{foldl}
use synk.Stest.Orc.{
  Orc, resolve, set_id, set_sub_key, set_name, get_id, get_sub_key, get_name, get_prev_id,
  get_prev_sub_key, get_prev_name,
}

-- The plain fields of an Orc.
pub record Fields : Type 0 where
  pub id : Text
  pub sub_key : Text
  pub name : Text

-- What the getters show.
unfoldable pub current : Orc → Fields
unfolding get_id get_sub_key get_name
current o = record { id = get_id o; sub_key = get_sub_key o; name = get_name o }

-- What the `GetPrev` getters show
unfoldable pub previous : Orc → Fields
unfolding get_prev_id get_prev_sub_key get_prev_name
previous o = record { id = get_prev_id o; sub_key = get_prev_sub_key o; name = get_prev_name o }

pub data Edit : Type 0 where
  to_id to_sub_key to_name : Text → Edit

-- The setter of an edit.
pub edit : Orc → Edit → Orc
edit o (to_id v) = set_id v o
edit o (to_sub_key v) = set_sub_key v o
edit o (to_name v) = set_name v o

-- What the edit means on plain fields.
pub assign : Fields → Edit → Fields
assign s (to_id v) = record s { id = v }
assign s (to_sub_key v) = record s { sub_key = v }
assign s (to_name v) = record s { name = v }

current-edit : (o : Orc) (e : Edit) → current (edit o e) ≡ assign (current o) e
unfolding current edit assign set_id set_sub_key set_name
current-edit o (to_id v) = ground arith
current-edit o _ = ground arith

previous-edit : (o : Orc) (e : Edit) → previous (edit o e) ≡ previous o
unfolding previous edit set_id set_sub_key set_name
previous-edit o (to_id v) = refl
previous-edit o _ = refl

-- A pending value differs from the field's value at the last Resolve.
abbrev Differs : Option Text → Text → Type 0
Differs none a = Unit
Differs (some b) a = b ≢ a

-- The diff holds no value that is the field's value already.
pub record IsMinimal (o : Orc) : Type 0 where
  pub id : Differs o.diff.id o.id
  pub sub_key : Differs o.diff.sub_key o.sub_key
  pub name : Differs o.diff.name o.name

edit-IsMinimal : (o : Orc) (e : Edit) → IsMinimal o → IsMinimal (edit o e)
unfolding edit set_id set_sub_key set_name
edit-IsMinimal o (to_id v) h = ground arith
edit-IsMinimal o (to_sub_key v) h = ground arith
edit-IsMinimal o (to_name v) h = ground arith

pub resolve-IsMinimal : (o : Orc) → IsMinimal (resolve o).1
unfolding resolve
resolve-IsMinimal o = record { id = tt; sub_key = tt; name = tt }

-- Setters act on what the getters show as assignments do, and leave what the `GetPrev` getters
-- show alone, in any sequence.
pub current-edits :
    (o : Orc) (es : List Edit)
    → (current (foldl edit o es) ≡ foldl assign (current o) es)
      × (previous (foldl edit o es) ≡ previous o)
current-edits o [] = (refl, refl)
current-edits o (e ∷ es) =
    let rest = current-edits (edit o e) es in
    (rest.0 ∙ ap (λ s. foldl assign s es) (current-edit o e), rest.1 ∙ previous-edit o e)

pub edits-IsMinimal : (o : Orc) (es : List Edit) → IsMinimal o → IsMinimal (foldl edit o es)
edits-IsMinimal o [] h = h
edits-IsMinimal o (e ∷ es) h = edits-IsMinimal (edit o e) es (edit-IsMinimal o e h)
