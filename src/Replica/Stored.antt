-- ===== src/Replica/Stored.antt =====
-- What MongoDB holds of an object in its life: the object as it was last resolved.
use synk.Base.{Text, Bool, true, false, none, some, text_eq, ◌≡◌, ◌≢◌, refl, sym, subst, ◌∙◌, arith}
use synk.Result.{returns}
use synk.Object.{Object, IsObject}
use synk.Service.{Service, IsService}
use synk.Mongo.{Bson, create}
use synk.Mongo.Create.{create-Created}
use synk.Mongo.Modify.{modify-Modified}
use synk.Mongo.Delete.{delete-Deleted}
use synk.Replica.Mutator.{Call, creates, modifies, deletes, perform}
use synk.Replica.Mongo.{Readable, mongo_mutator}
use synk.Replica.History.{
  Scene, Edited, Due, live_after, Step, edits, prepares, calls, calls_other, writes, History, now,
  later,
}

module _ {O D W Doc : Type 0} (I : Object O D) (S : Service W Doc) (bson : Bson O Doc)
    (Typed : O → Type 0) (id : Text) where
  -- The document of an object that can be read back, and that is the object as it was last
  -- resolved; its tag knows where it is.
  pub record IsKept (o : O) (w : W) : Type 0 where
    pub saved : O
    pub stored : S.document id w ≡ some (bson.to_doc saved)
    pub typed : Typed saved
    pub same : I.tag_get_id o ≡ id
    pub saved_id : I.tag_get_id saved ≡ id
    pub state : I.state saved ≡ I.state o
    pub version : I.version saved ≡ I.version o
    pub saved_sub : I.tag_sub saved ≡ I.tag_sub o
    pub tag_sub : I.tag_sub o ≡ I.get_prev_sub_key o

  -- There is no document before the object's creation, nor after its deletion.
  abbrev pub IsStored : Bool → O → W → Type 0
  IsStored true o w = IsKept o w
  IsStored false o w = S.document id w ≡ none

  -- Only the document matters.
  IsStored-world :
      (live : Bool) (o : O) (v w : W)
      → S.document id w ≡ S.document id v
      → IsStored live o v
      → IsStored live o w
  IsStored-world true o v w e h = record {
    saved = h.saved;
    stored = e ∙ h.stored;
    typed = h.typed;
    same = h.same;
    saved_id = h.saved_id;
    state = h.state;
    version = h.version;
    saved_sub = h.saved_sub;
    tag_sub = h.tag_sub;
  }
  IsStored-world false o v w e h = e ∙ h

  Edited-IsStored :
      (live : Bool) (o p : O) (w : W) → Edited I o p → IsStored live o w → IsStored live p w
  Edited-IsStored true o p w e h = record {
    saved = h.saved;
    stored = h.stored;
    typed = h.typed;
    same = e.id ∙ h.same;
    saved_id = h.saved_id;
    state = h.state ∙ sym e.state;
    version = h.version ∙ sym e.version;
    saved_sub = h.saved_sub ∙ sym e.tag_sub;
    tag_sub = e.tag_sub ∙ h.tag_sub ∙ sym e.prev_sub_key;
  }
  Edited-IsStored false o p w e h = h

  abbrev pub StoredIn : Scene O W → Type 0
  StoredIn s = IsStored s.live s.object s.world

  module _ (law : IsObject I) (ops : IsService S)
      (named : (o : O) → S.id_of (bson.to_doc o) ≡ I.tag_get_id o) where
    fresh-IsKept :
        (p : O) (w : W)
        → S.document id w ≡ some (bson.to_doc p)
        → Typed p
        → I.tag_get_id p ≡ id
        → I.tag_sub p ≡ I.get_prev_sub_key p
        → IsKept p w
    fresh-IsKept p w stored typed same tagged = record {
      saved = p;
      stored = stored;
      typed = typed;
      same = same;
      saved_id = same;
      state = refl;
      version = refl;
      saved_sub = refl;
      tag_sub = tagged;
    }

    call-IsStored :
        (c : Call) (live : Bool) (o : O) (w : W)
        → Readable I S bson Typed c (record { object = o; world = w })
        → let r = perform (mongo_mutator I S bson Typed) c (record { object = o; world = w }) in
          Due I id c live r.1.object
          → r.0 ≡ returns none
          → IsStored live o w
          → IsStored (live_after I c) r.1.object r.1.world
    call-IsStored (creates draws) live o w typed due ok h =
        let done = (create-Created I S bson law ops draws _ none ok).1 in
        fresh-IsKept _ _
          (ground (
            arith,
            done.documents id,
            named (create I S bson draws (record { object = o; world = w })).1.object,
            due.1,
          ))
          typed due.1 (done.tagged ∙ law.unchanged _ done.resolved)
    call-IsStored modifies false o w typed due ok h = cc
    call-IsStored modifies true o w typed due ok h =
        let done = (modify-Modified I S bson law ops _ none ok).1 in
        fresh-IsKept _ _ (ground (arith, done.documents id, h.same)) typed (done.object.id ∙ h.same)
          (ground (arith, done.object.tag_sub, h.tag_sub, done.object.prev_sub_key))
    call-IsStored deletes false o w typed due ok h = cc
    call-IsStored deletes true o w typed due ok h =
        let done = (delete-Deleted I S ops _ none ok).1 in ground (arith, done.documents id, h.same)

    other-IsStored :
        (c : Call) (live : Bool) (o q : O) (w : W)
        → let r = perform (mongo_mutator I S bson Typed) c (record { object = q; world = w }) in
          I.tag_get_id r.1.object ≢ id
          → r.0 ≡ returns none
          → IsStored live o w
          → IsStored live o r.1.world
    other-IsStored (creates draws) live o q w differ ok h =
        let done = (create-Created I S bson law ops draws _ none ok).1 in
        IsStored-world live o w _
          (ground (
            arith,
            done.documents id,
            named (create I S bson draws (record { object = q; world = w })).1.object,
            differ,
          ))
          h
    other-IsStored modifies live o q w differ ok h =
        let done = (modify-Modified I S bson law ops _ none ok).1 in
        IsStored-world live o w _ (ground (arith, done.documents id, done.object.id, differ)) h
    other-IsStored deletes live o q w differ ok h =
        let done = (delete-Deleted I S ops _ none ok).1 in
        IsStored-world live o w _ (ground (arith, done.documents id, done.object, differ)) h

    prepared-IsStored :
        (live : Bool) (o p : O) (w : W) → live ≡ false → IsStored live o w → IsStored live p w
    prepared-IsStored true o p w e h = cc
    prepared-IsStored false o p w e h = h

    Step-StoredIn :
        (s t : Scene O W) → Step I (mongo_mutator I S bson Typed) id s t → StoredIn s → StoredIn t
    Step-StoredIn s t (edits p live edited e) h =
        subst StoredIn (sym e) (Edited-IsStored s.live s.object p s.world edited h)
    Step-StoredIn s t (prepares p gone e) h =
        subst StoredIn (sym e) (prepared-IsStored s.live s.object p s.world gone h)
    Step-StoredIn s t (calls c next typed plain due ok got e) h =
        subst StoredIn (sym e) (call-IsStored c s.live s.object s.world typed due ok h)
    Step-StoredIn s t (calls_other c q next typed plain other ok got e) h =
        subst StoredIn (sym e) (other-IsStored c s.live s.object q s.world other ok h)
    Step-StoredIn s t (writes b bs first e) h = subst StoredIn (sym e) h

    pub History-StoredIn :
        (s t : Scene O W)
        → History I (mongo_mutator I S bson Typed) id s t
        → StoredIn s
        → StoredIn t
    History-StoredIn s _ (now _) h = h
    History-StoredIn s t (later _ m _ step rest) h =
        History-StoredIn m t rest (Step-StoredIn s m step h)
