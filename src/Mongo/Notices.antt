-- ===== src/Mongo/Notices.antt =====
-- The messages of `Modify`, and what it leaves in the services and in the object.
use synk.Base.{
  Text, none, some, List, [], ◌∷◌, ◌++◌, ◌≡◌, ◌≢◌, refl, ◌∙◌, false, ◌==◌, text_eq, if◌then◌else◌,
  arith,
}
use synk.Result.{ok}
use synk.Object.{Object, IsObject, next_version}
use synk.Service.{Service}
use synk.Wire.Message.{AddMsg, ModMsg, marshal_add, marshal_mod}
use synk.Mongo.{Bson, Session, with_header}
use synk.Mongo.Create.{announce}

module _ {O D : Type 0} (I : Object O D) where
  -- The key that the message with the diff names: that of where the object is, if it has moved.
  abbrev pub moved_key : O → Text
  moved_key o = if I.get_sub_key o == I.get_prev_sub_key o then [] else I.get_sub_key o

  -- The message with the diff from `o` to `p`, where `p` is `o` after Resolve.
  abbrev pub mod_notice : O → O → Text → ModMsg D
  mod_notice o p ns_key = record {
    diff = (I.resolve o).0;
    id = I.tag_get_id o;
    version = I.version p;
    s_key = I.get_prev_sub_key o;
    ns_key = ns_key;
  }

  -- The message that shows `p` to clients that had not subscribed where it comes from.
  abbrev pub add_notice : O → O → AddMsg D
  add_notice o p = record (announce I p) { ps_key = I.get_prev_sub_key o }

  -- The messages that tell clients that `o` has become `p`: the diff where the object was, and if
  -- it has moved, the whole object where it is, behind a header that names where it was.
  pub data Notices (o p : O) (out : List (Text × Text)) : Type 0 where
    stays :
        (b : Text)
        → I.get_sub_key o ≡ I.get_prev_sub_key o
        → marshal_mod I.marshal (mod_notice o p []) ≡ ok b
        → out ≡ (I.get_prev_sub_key o, b) ∷ []
        → Notices o p out
    moves :
        (b c : Text)
        → I.get_sub_key o ≢ I.get_prev_sub_key o
        → marshal_mod I.marshal (mod_notice o p (I.get_sub_key o)) ≡ ok b
        → marshal_add I.marshal (add_notice o p) ≡ ok c
        → out
          ≡ (I.get_prev_sub_key o, b) ∷ (I.get_sub_key o, with_header (I.get_prev_sub_key o) c) ∷ []
        → Notices o p out

  -- The object after Modify: resolved, of the next version, where it has moved to; its tag has the
  -- new key if the object has moved, and is as it was if not.
  pub record IsResolved (o p : O) : Type 0 where
    pub resolved : I.changed p ≡ false
    pub sub_key : I.get_sub_key p ≡ I.get_sub_key o
    pub prev_sub_key : I.get_prev_sub_key p ≡ I.get_sub_key o
    pub type_key : I.type_key p ≡ I.type_key o
    pub id : I.tag_get_id p ≡ I.tag_get_id o
    pub version : I.version p ≡ next_version (I.version o)
    pub state : I.state p ≡ I.state (I.resolve o).1
    pub tag_sub :
        I.tag_sub p
        ≡ (if I.get_sub_key o == I.get_prev_sub_key o then I.tag_sub o else I.get_sub_key o)

  -- `resolve` alone, where the object has not moved
  pub resolve-IsResolved :
      IsObject I → (o : O) → I.get_sub_key o ≡ I.get_prev_sub_key o → IsResolved o (I.resolve o).1
  resolve-IsResolved law o same = record {
    resolved = law.changed-resolve o;
    sub_key = law.sub_key-resolve o;
    prev_sub_key = law.prev_sub_key-resolve o;
    type_key = law.type_key-resolve o;
    id = law.tag_get_id-resolve o;
    version = law.version-resolve o;
    state = refl;
    tag_sub = ground (arith, law.tag_sub-resolve o);
  }

  -- `TagSetSub` keeps it, with the object's new key
  pub tag_set_sub-IsResolved :
      IsObject I
      → (o q : O) → I.get_sub_key q ≡ I.get_sub_key o
      → I.get_prev_sub_key q ≡ I.get_sub_key o
      → I.type_key q ≡ I.type_key o
      → I.tag_get_id q ≡ I.tag_get_id o
      → I.version q ≡ next_version (I.version o)
      → I.state q ≡ I.state (I.resolve o).1
      → I.changed q ≡ false
      → I.get_sub_key o ≢ I.get_prev_sub_key o
      → IsResolved o (I.tag_set_sub (I.get_sub_key o) q)
  tag_set_sub-IsResolved law o q sub prev type id version state resolved differ =
      let body = law.tag_set_sub-SameBody (I.get_sub_key o) q in
      record {
        resolved = body.changed ∙ resolved;
        sub_key = body.sub_key ∙ sub;
        prev_sub_key = body.prev_sub_key ∙ prev;
        type_key = body.type_key ∙ type;
        id = law.tag_get_id-tag_set_sub (I.get_sub_key o) q ∙ id;
        version = body.version ∙ version;
        state = body.state ∙ state;
        tag_sub = ground (arith, law.tag_sub-tag_set_sub (I.get_sub_key o) q);
      }

module _ {O D W Doc : Type 0} (I : Object O D) (S : Service W Doc) (bson : Bson O Doc) where
  -- What a successful Modify does: the object's document was there and is the only one that
  -- changes, the object is resolved, and clients are told.
  pub record Modified (s t : Session O W) : Type 0 where
    pub object : IsResolved I s.object t.object
    pub known : S.document (I.tag_get_id s.object) s.world ≢ none
    pub documents :
        (k : Text)
        → S.document k t.world ≡ (
            if k == I.tag_get_id s.object
            then some (bson.to_doc t.object)
            else S.document k s.world)
    pub out : List (Text × Text)
    pub published : S.published t.world ≡ S.published s.world ++ out
    pub notices : Notices I s.object t.object out
