-- ===== src/Stest/Human/Wire.antt =====
-- The JSON of a Human's diff determines the diff.
use synk.Base.{Text, codes, ℤ, Option, none, some, ◌≡◌, ◌≢◌, refl, sym, ap, ◌∙◌, arith}
use synk.Result.{ok, ok_inj}
use synk.Wire.Json.{Json, num, str, obj, Fields, end, field}
use synk.Wire.Message.Unique.{IsFaithful}
use synk.Stest.Human.{HumanDiff, omit_empty, marshal_diff}

-- The first field has another name.
abbrev NotFirst : Text → Fields → Type 0
NotFirst name end = Unit
NotFirst name (field k v fs) = name ≢ k

NotFirst-omit_empty :
    {A : Type 0} (name k : Text) (f : A → Json) (a : Option A) (rest : Fields)
    → name ≢ k
    → NotFirst name rest
    → NotFirst name (omit_empty k f a rest)
NotFirst-omit_empty name k f none rest n h = h
NotFirst-omit_empty name k f (some a) rest n h = n

first : (name : Text) (v : Json) (fs gs : Fields) → NotFirst name gs → field name v fs ≢ gs
first name v fs end h e = cc
first name v fs (field k w gs) h e = h (name_eq e)
  where
    name_eq : field name v fs ≡ field k w gs → name ≡ k
    name_eq e = cc

-- A field that may be left out, and the rest
omit_empty-injective :
    {A : Type 0} (name : Text) (f : A → Json)
    → ((x y : A) → f x ≡ f y → x ≡ y)
    → (a b : Option A) (fs gs : Fields) → NotFirst name fs
    → NotFirst name gs
    → omit_empty name f a fs ≡ omit_empty name f b gs
    → (a ≡ b) × (fs ≡ gs)
omit_empty-injective name f inj none none fs gs hf hg e = (refl, e)
omit_empty-injective name f inj none (some y) fs gs hf hg e =
    absurd (first name (f y) gs fs hf (sym e))
omit_empty-injective name f inj (some x) none fs gs hf hg e = absurd (first name (f x) fs gs hg e)
omit_empty-injective name f inj (some x) (some y) fs gs hf hg e = (ap some (inj x y (cc)), cc)

num_eq : (x y : ℤ) → num x ≡ num y → x ≡ y
num_eq x y e = cc

str_eq : (x y : Text) → str x ≡ str y → x ≡ y
str_eq x y e = cc

obj_eq : (fs gs : Fields) → obj fs ≡ obj gs → fs ≡ gs
obj_eq fs gs e = cc

-- The fields from each one on
abbrev from_map_id : HumanDiff → Fields
from_map_id d = omit_empty (codes "mapID") str d.map_id end

abbrev from_ci : HumanDiff → Fields
from_ci d = omit_empty (codes "ci") num d.ci (from_map_id d)

abbrev from_cx : HumanDiff → Fields
from_cx d = omit_empty (codes "cx") num d.cx (from_ci d)

abbrev from_cy : HumanDiff → Fields
from_cy d = omit_empty (codes "cy") num d.cy (from_cx d)

abbrev from_y : HumanDiff → Fields
from_y d = omit_empty (codes "y") num d.y (from_cy d)

abbrev from_x : HumanDiff → Fields
from_x d = omit_empty (codes "x") num d.x (from_y d)

from_map_id-lacks :
    (name : Text) (d : HumanDiff) → name ≢ codes "mapID" → NotFirst name (from_map_id d)
from_map_id-lacks name d h_map_id =
    NotFirst-omit_empty name (codes "mapID") str d.map_id end h_map_id tt

from_ci-lacks :
    (name : Text) (d : HumanDiff)
    → name ≢ codes "ci"
    → name ≢ codes "mapID"
    → NotFirst name (from_ci d)
from_ci-lacks name d h_ci h_map_id =
    NotFirst-omit_empty name (codes "ci") num d.ci (from_map_id d) h_ci
      (from_map_id-lacks name d h_map_id)

from_cx-lacks :
    (name : Text) (d : HumanDiff)
    → name ≢ codes "cx"
    → name ≢ codes "ci"
    → name ≢ codes "mapID"
    → NotFirst name (from_cx d)
from_cx-lacks name d h_cx h_ci h_map_id =
    NotFirst-omit_empty name (codes "cx") num d.cx (from_ci d) h_cx
      (from_ci-lacks name d h_ci h_map_id)

from_cy-lacks :
    (name : Text) (d : HumanDiff)
    → name ≢ codes "cy"
    → name ≢ codes "cx"
    → name ≢ codes "ci"
    → name ≢ codes "mapID"
    → NotFirst name (from_cy d)
from_cy-lacks name d h_cy h_cx h_ci h_map_id =
    NotFirst-omit_empty name (codes "cy") num d.cy (from_cx d) h_cy
      (from_cx-lacks name d h_cx h_ci h_map_id)

from_y-lacks :
    (name : Text) (d : HumanDiff)
    → name ≢ codes "y"
    → name ≢ codes "cy"
    → name ≢ codes "cx"
    → name ≢ codes "ci"
    → name ≢ codes "mapID"
    → NotFirst name (from_y d)
from_y-lacks name d h_y h_cy h_cx h_ci h_map_id =
    NotFirst-omit_empty name (codes "y") num d.y (from_cy d) h_y
      (from_cy-lacks name d h_cy h_cx h_ci h_map_id)

-- The diffs with the same JSON are the same.
pub marshal_diff-injective : (a b : HumanDiff) → marshal_diff a ≡ marshal_diff b → a ≡ b
unfolding marshal_diff
marshal_diff-injective a b e =
    let (x, after_x) =
      omit_empty-injective (codes "x") num num_eq a.x b.x (from_y a) (from_y b)
        (from_y-lacks (codes "x") a (λ h. ground arith) (λ h. ground arith) (λ h. ground arith)
          (λ h. ground arith) (λ h. ground arith))
        (from_y-lacks (codes "x") b (λ h. ground arith) (λ h. ground arith) (λ h. ground arith)
          (λ h. ground arith) (λ h. ground arith))
        (obj_eq (from_x a) (from_x b) e) in
    let (y, after_y) =
      omit_empty-injective (codes "y") num num_eq a.y b.y (from_cy a) (from_cy b)
        (from_cy-lacks (codes "y") a (λ h. ground arith) (λ h. ground arith) (λ h. ground arith)
          (λ h. ground arith))
        (from_cy-lacks (codes "y") b (λ h. ground arith) (λ h. ground arith) (λ h. ground arith)
          (λ h. ground arith))
        (after_x) in
    let (cy, after_cy) =
      omit_empty-injective (codes "cy") num num_eq a.cy b.cy (from_cx a) (from_cx b)
        (from_cx-lacks (codes "cy") a (λ h. ground arith) (λ h. ground arith) (λ h. ground arith))
        (from_cx-lacks (codes "cy") b (λ h. ground arith) (λ h. ground arith) (λ h. ground arith))
        (after_y) in
    let (cx, after_cx) =
      omit_empty-injective (codes "cx") num num_eq a.cx b.cx (from_ci a) (from_ci b)
        (from_ci-lacks (codes "cx") a (λ h. ground arith) (λ h. ground arith))
        (from_ci-lacks (codes "cx") b (λ h. ground arith) (λ h. ground arith)) (after_cy) in
    let (ci, after_ci) =
      omit_empty-injective (codes "ci") num num_eq a.ci b.ci (from_map_id a) (from_map_id b)
        (from_map_id-lacks (codes "ci") a (λ h. ground arith))
        (from_map_id-lacks (codes "ci") b (λ h. ground arith)) (after_cx) in
    let (map_id, after_map_id) =
      omit_empty-injective (codes "mapID") str str_eq a.map_id b.map_id end end tt tt (after_ci) in
    λ i. record { x = x i; y = y i; cy = cy i; cx = cx i; ci = ci i; map_id = map_id i }

pub human-IsFaithful : IsFaithful (λ (d : HumanDiff). ok (marshal_diff d))
human-IsFaithful a b j x y = marshal_diff-injective a b (ok_inj _ _ (x ∙ sym y))
