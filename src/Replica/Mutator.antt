-- ===== src/Replica/Mutator.antt =====
-- Interfaces.go: `Mutator`, as its three calls on an object and what clients are told of them.
use synk.Base.{
  ℕ, Text, false, none, List, [], ◌∷◌, ◌++◌, ◌≡◌, drop, length, ap, sym, subst, ◌∙◌,
  drop-length-append,
}
use synk.Result.{Outcome, Error, ok, returns}
use synk.Object.{Object, next_version}
use synk.Wire.Message.{marshal_add, marshal_rem}
use synk.Mongo.{Session}
use synk.Mongo.Create.{announce}
use synk.Mongo.Notices.{Notices}
use synk.Mongo.Delete.{rem_notice}

-- Create takes what `TagInit` draws from `rand.Intn`.
pub data Call : Type 0 where
  creates : (ℕ → ℕ) → Call
  modifies deletes : Call

pub record Mutator (O W : Type 0) : Type 1 where
  pub create : (ℕ → ℕ) → Session O W → Outcome Error × Session O W
  pub modify : Session O W → Outcome Error × Session O W
  pub delete : Session O W → Outcome Error × Session O W
  -- The messages that have been published so far
  pub published : W → List (Text × Text)
  -- What the implementation asks of the session that a call starts from
  pub Allowed : Call → Session O W → Type 0

abbrev pub perform : {O W : Type 0} → Mutator O W → Call → Session O W → Outcome Error × Session O W
perform M (creates draws) s = M.create draws s
perform M modifies s = M.modify s
perform M deletes s = M.delete s

module _ {O D : Type 0} (I : Object O D) where
  -- The object `o` has become `p`, which one message announces where it is.
  pub record Announced (o p : O) (out : List (Text × Text)) : Type 0 where
    pub resolved : I.changed p ≡ false
    pub bytes : Text
    pub marshalled : marshal_add I.marshal (announce I p) ≡ ok bytes
    pub publishes : out ≡ (I.get_sub_key p, bytes) ∷ []

  -- `p` is the next version of `o`, resolved, where `o` has moved to; clients are told of it.
  pub record Changed (o p : O) (out : List (Text × Text)) : Type 0 where
    pub prev_sub_key : I.get_prev_sub_key p ≡ I.get_sub_key o
    pub id : I.tag_get_id p ≡ I.tag_get_id o
    pub version : I.version p ≡ next_version (I.version o)
    pub state : I.state p ≡ I.state (I.resolve o).1
    pub notices : Notices I o p out

  -- The object is as it was, and one message says where clients have it that it is gone.
  pub record Removed (o p : O) (out : List (Text × Text)) : Type 0 where
    pub object : p ≡ o
    pub bytes : Text
    pub marshalled : marshal_rem (rem_notice I o) ≡ ok bytes
    pub publishes : out ≡ (I.get_prev_sub_key o, bytes) ∷ []

  -- What a call promises of the object and of the messages
  abbrev pub Told : Call → O → O → List (Text × Text) → Type 0
  Told (creates draws) o p out = Announced o p out
  Told modifies o p out = Changed o p out
  Told deletes o p out = Removed o p out

  -- What clients rely on: an allowed call that returns nil has kept its promise.
  pub record IsMutator {W : Type 0} (M : Mutator O W) : Type 0 where
    pub tells :
        (c : Call) (s : Session O W)
        → M.Allowed c s
        → (perform M c s).0 ≡ returns none
        → (out : List (Text × Text)) × (M.published (perform M c s).1.world
            ≡ M.published s.world ++ out)
          × Told c s.object (perform M c s).1.object out

-- What has been published between two worlds
abbrev pub fresh : {O W : Type 0} → Mutator O W → W → W → List (Text × Text)
fresh M v w = drop (length (M.published v)) (M.published w)

module _ {O D W : Type 0} (I : Object O D) (M : Mutator O W) where
  pub tells-fresh :
      IsMutator I M
      → (c : Call) (s : Session O W) → M.Allowed c s
      → (perform M c s).0 ≡ returns none
      → Told I c s.object (perform M c s).1.object (fresh M s.world (perform M c s).1.world)
  tells-fresh law c s can h =
      let (out, published, told) = law.tells c s can h in
      let e =
        ap (drop (length (M.published s.world))) published
        ∙ drop-length-append (M.published s.world) out in
      subst (Told I c s.object (perform M c s).1.object) (sym e) told
