-- ===== src/Stest/Human/Resolve.antt =====
-- What Resolve, State, Init and Changed of Human promise a client that mirrors the object.
use synk.Base.{false, List, ◌≡◌, refl, sym, ◌∙◌, ◌↔◌, ap, arith}
use mathlib.Core.List.{foldl}
use mathlib.Core.Option
use synk.Object.{next_version}
use synk.Stest.Human.{Human, HumanDiff, resolve, changed, init, state}
use synk.Stest.Human.Edits.{Fields, current, previous, Edit, edit, assign, IsMinimal, current-edits}

-- A client writes the values that a diff or a state holds over its own.
pub apply : HumanDiff → Fields → Fields
apply d s = record {
  x = Option.get_or d.x s.x;
  y = Option.get_or d.y s.y;
  cx = Option.get_or d.cx s.cx;
  cy = Option.get_or d.cy s.cy;
  ci = Option.get_or d.ci s.ci;
  map_id = Option.get_or d.map_id s.map_id;
}

-- Resolve makes what the getters show the state of the object, keeps what they show, adds one to
-- the version and leaves no change; a client that mirrored the previous state and applies the diff
-- that Resolve returns has the new one.
pub resolve_lem :
    (o : Human)
    → (previous (resolve o).1 ≡ current o)
      × (current (resolve o).1 ≡ current o)
      × (apply (resolve o).0 (previous o) ≡ previous (resolve o).1)
      × (changed (resolve o).1 ≡ false)
      × ((resolve o).1.tag.v ≡ next_version o.tag.v)
unfolding resolve previous current apply changed
resolve_lem o = (ground arith, ground arith, ground arith, refl, refl)

-- Any setters and then Resolve: a client that mirrored the object applies the diff and has the
-- assigned fields.
pub apply-resolve-edits :
    (o : Human) (es : List Edit)
    → current o ≡ previous o
    → apply (resolve (foldl edit o es)).0 (previous o) ≡ foldl assign (previous o) es
apply-resolve-edits o es h =
    let p = foldl edit o es in
    let (shown, kept) = current-edits o es in
    ap (apply (resolve p).0) (sym kept)
    ∙ (resolve_lem p).2
    ∙ (resolve_lem p).0
    ∙ shown
    ∙ ap (λ s. foldl assign s es) h

-- In an object whose diff is minimal, Changed tells whether the getters show anything new.
pub changed_iff : (o : Human) → IsMinimal o → (changed o ≡ false) ↔ (current o ≡ previous o)
unfolding changed current previous
changed_iff o h = ground arith

-- State and what Resolve returns after Init hold every field: a client has the object's resolved
-- fields from them, whatever it held.
pub apply-state :
    (o : Human) (s : Fields)
    → (apply (state o) s ≡ previous o) × (apply (resolve (init o)).0 s ≡ previous o)
unfolding apply state resolve init previous
apply-state o s = (refl, refl)

-- Init drops what setters have left pending: the getters show the resolved fields again.
pub current-init : (o : Human) → current (init o) ≡ previous o
unfolding current init previous
current-init o = refl
