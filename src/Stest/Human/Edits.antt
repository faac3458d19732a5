-- ===== src/Stest/Human/Edits.antt =====
-- Any sequence of setters, as a client of Human sees it.
use synk.Base.{
  Text, ℤ, Option, none, some, List, [], ◌∷◌, ◌≡◌, ◌≢◌, refl, ◌∙◌, ap, arith, int_eq, text_eq,
}
use mathlib.Core.List.{foldl}
use synk.Stest.Human.{
  Human, resolve, set_x, set_y, set_cy, set_cx, set_ci, set_map_id, get_x, get_y, get_cy, get_cx,
  get_ci, get_map_id, get_prev_x, get_prev_y, get_prev_cy, get_prev_cx, get_prev_ci,
  get_prev_map_id,
}

-- The plain fields of a Human.
pub record Fields : Type 0 where
  pub x : ℤ
  pub y : ℤ
  pub cx : ℤ
  pub cy : ℤ
  pub ci : ℤ
  pub map_id : Text

-- What the getters show.
unfoldable pub current : Human → Fields
unfolding get_x get_y get_cx get_cy get_ci get_map_id
current o = record {
  x = get_x o;
  y = get_y o;
  cx = get_cx o;
  cy = get_cy o;
  ci = get_ci o;
  map_id = get_map_id o;
}

-- What the `GetPrev` getters show
unfoldable pub previous : Human → Fields
unfolding get_prev_x get_prev_y get_prev_cx get_prev_cy get_prev_ci get_prev_map_id
previous o = record {
  x = get_prev_x o;
  y = get_prev_y o;
  cx = get_prev_cx o;
  cy = get_prev_cy o;
  ci = get_prev_ci o;
  map_id = get_prev_map_id o;
}

pub data Edit : Type 0 where
  to_x to_y to_cx to_cy to_ci : ℤ → Edit
  to_map_id : Text → Edit

-- The setter of an edit.
unfoldable pub edit : Human → Edit → Human
edit o (to_x v) = set_x v o
edit o (to_y v) = set_y v o
edit o (to_cx v) = set_cx v o
edit o (to_cy v) = set_cy v o
edit o (to_ci v) = set_ci v o
edit o (to_map_id v) = set_map_id v o

-- What the edit means on plain fields.
pub assign : Fields → Edit → Fields
assign s (to_x v) = record s { x = v }
assign s (to_y v) = record s { y = v }
assign s (to_cx v) = record s { cx = v }
assign s (to_cy v) = record s { cy = v }
assign s (to_ci v) = record s { ci = v }
assign s (to_map_id v) = record s { map_id = v }

current-edit : (o : Human) (e : Edit) → current (edit o e) ≡ assign (current o) e
unfolding current edit assign set_x set_y set_cx set_cy set_ci set_map_id
current-edit o (to_x v) = ground arith
current-edit o (to_y v) = ground arith
current-edit o (to_cx v) = ground arith
current-edit o (to_cy v) = ground arith
current-edit o (to_ci v) = ground arith
current-edit o (to_map_id v) = ground arith

previous-edit : (o : Human) (e : Edit) → previous (edit o e) ≡ previous o
unfolding previous edit set_x set_y set_cx set_cy set_ci set_map_id
previous-edit o (to_x v) = refl
previous-edit o _ = refl

-- A pending value differs from the field's value at the last Resolve.
abbrev pub Differs {ℓ} : {A : Type ℓ} → Option A → A → Type ℓ
Differs none a = Unit
Differs (some b) a = b ≢ a

-- The diff holds no value that is the field's value already.
pub record IsMinimal (o : Human) : Type 0 where
  pub x : Differs o.diff.x o.x
  pub y : Differs o.diff.y o.y
  pub cx : Differs o.diff.cx o.cx
  pub cy : Differs o.diff.cy o.cy
  pub ci : Differs o.diff.ci o.ci
  pub map_id : Differs o.diff.map_id o.map_id

pub edit-IsMinimal : (o : Human) (e : Edit) → IsMinimal o → IsMinimal (edit o e)
unfolding edit set_x set_y set_cx set_cy set_ci set_map_id
edit-IsMinimal o (to_x v) h = ground arith
edit-IsMinimal o (to_y v) h = ground arith
edit-IsMinimal o (to_cx v) h = ground arith
edit-IsMinimal o (to_cy v) h = ground arith
edit-IsMinimal o (to_ci v) h = ground arith
edit-IsMinimal o (to_map_id v) h = ground arith

pub resolve-IsMinimal : (o : Human) → IsMinimal (resolve o).1
unfolding resolve
resolve-IsMinimal o = record { x = tt; y = tt; cx = tt; cy = tt; ci = tt; map_id = tt }

-- Setters act on what the getters show as assignments do, and leave what the `GetPrev` getters
-- show alone, in any sequence.
pub current-edits :
    (o : Human) (es : List Edit)
    → (current (foldl edit o es) ≡ foldl assign (current o) es)
      × (previous (foldl edit o es) ≡ previous o)
current-edits o [] = (refl, refl)
current-edits o (e ∷ es) =
    let rest = current-edits (edit o e) es in
    (rest.0 ∙ ap (λ s. foldl assign s es) (current-edit o e), rest.1 ∙ previous-edit o e)

-- Setters keep the diff of a Human minimal, in any sequence.
pub edits-IsMinimal : (o : Human) (es : List Edit) → IsMinimal o → IsMinimal (foldl edit o es)
edits-IsMinimal o [] h = h
edits-IsMinimal o (e ∷ es) h = edits-IsMinimal (edit o e) es (edit-IsMinimal o e h)
