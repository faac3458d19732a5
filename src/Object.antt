-- ===== src/Object.antt =====
-- Interfaces.go: `Object` and `Initializer`, as a record of methods over the type O of the objects
-- and the type D of what `State` and `Resolve` return, and what those methods promise.
use synk.Base.{
  ℕ, ◌+◌, ◌%◌, ◌^◌, ◌≡◌, Text, [], Bool, false, Option, none, some, ◌==◌, text_eq, if◌then◌else◌,
}
use synk.Id.{new_id}
use synk.Wire.Json.{Json}
use synk.Result.{Result}

-- A method with a pointer receiver returns the object that it leaves. `draws` is what `TagInit`
-- takes from `rand.Intn`. `marshal` is `json.Marshal` of a state or a diff, and `to_json` that of
-- the object; a custom marshaller may fail. `tag_sub` is the `sub` that the
-- object's document holds.
pub record Object (O D : Type 0) : Type 0 where
  pub type_key : O → Text
  pub get_sub_key : O → Text
  pub get_prev_sub_key : O → Text
  pub state : O → D
  pub resolve : O → D × O
  pub changed : O → Bool
  pub init : O → O
  pub copy : O → O
  pub version : O → ℕ
  pub tag_init : Text → (ℕ → ℕ) → O → O
  pub tag_get_id : O → Text
  pub tag_set_sub : Text → O → O
  pub on_create : Option (O → O)
  pub tag_sub : O → Text
  pub marshal : D → Result Json
  pub to_json : O → Result Json

-- `if initer, ok := obj.(Initializer); ok { initer.OnCreate() }`
abbrev pub run_on_create : {O D : Type 0} → Object O D → O → O
run_on_create I o = elim I.on_create [ none ↦ o | some f ↦ f o ]

-- An unsigned version counter is 64 bits wide.
abbrev pub next_version : ℕ → ℕ
next_version v = (v + 1) % 2 ^ 64

module _ {O D : Type 0} where
  -- The two objects agree on all that a method of the tag may not touch.
  pub record SameBody (I : Object O D) (a b : O) : Type 0 where
    pub type_key : I.type_key a ≡ I.type_key b
    pub sub_key : I.get_sub_key a ≡ I.get_sub_key b
    pub prev_sub_key : I.get_prev_sub_key a ≡ I.get_prev_sub_key b
    pub state : I.state a ≡ I.state b
    pub changed : I.changed a ≡ I.changed b
    pub version : I.version a ≡ I.version b

  -- What the comments of the interface, and the library's use of it, ask of an implementation.
  pub record IsObject (I : Object O D) : Type 0 where
    pub type_key-resolve : (o : O) → I.type_key (I.resolve o).1 ≡ I.type_key o
    pub sub_key-resolve : (o : O) → I.get_sub_key (I.resolve o).1 ≡ I.get_sub_key o
    pub prev_sub_key-resolve : (o : O) → I.get_prev_sub_key (I.resolve o).1 ≡ I.get_sub_key o
    pub changed-resolve : (o : O) → I.changed (I.resolve o).1 ≡ false
    pub version-resolve : (o : O) → I.version (I.resolve o).1 ≡ next_version (I.version o)
    pub tag_get_id-resolve : (o : O) → I.tag_get_id (I.resolve o).1 ≡ I.tag_get_id o
    pub tag_sub-resolve : (o : O) → I.tag_sub (I.resolve o).1 ≡ I.tag_sub o
    pub unchanged : (o : O) → I.changed o ≡ false → I.get_sub_key o ≡ I.get_prev_sub_key o
    pub copy : (o : O) → I.copy o ≡ o
    pub tag_get_id-tag_init :
        (t : Text) (draws : ℕ → ℕ) (o : O)
        → I.tag_get_id (I.tag_init t draws o)
          ≡ (if I.tag_get_id o == [] then new_id draws else I.tag_get_id o)
    pub tag_sub-tag_init :
        (t : Text) (draws : ℕ → ℕ) (o : O) → I.tag_sub (I.tag_init t draws o) ≡ I.tag_sub o
    pub tag_init-SameBody : (t : Text) (draws : ℕ → ℕ) (o : O) → SameBody I (I.tag_init t draws o) o
    pub type_key-on_create : (o : O) → I.type_key (run_on_create I o) ≡ I.type_key o
    pub tag_sub-tag_set_sub : (k : Text) (o : O) → I.tag_sub (I.tag_set_sub k o) ≡ k
    pub tag_get_id-tag_set_sub :
        (k : Text) (o : O) → I.tag_get_id (I.tag_set_sub k o) ≡ I.tag_get_id o
    pub tag_set_sub-SameBody : (k : Text) (o : O) → SameBody I (I.tag_set_sub k o) o
