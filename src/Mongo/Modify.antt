-- ===== src/Mongo/Modify.antt =====
-- `Modify` does what `Modified` says.
use synk.Base.{none, [], ◌∷◌, ◌++◌, ◌≡◌, ◌≢◌, refl, sym, ap, subst, ◌∙◌, text_eq, append_assoc}
use mathlib.Core.Logic.{if_pos, if_neg}
use synk.Result.{map_ok, map_ok-eq-ok, Error, returns}
use synk.Object.{Object, IsObject}
use synk.Service.{Service, IsService}
use synk.Wire.Message.{marshal_add, marshal_mod}
use synk.Mongo.{
  Bson, Session, modify, modify_simple, modify_moved, send_mod, send_add_from, with_header,
}
use synk.Mongo.Steps.{checked-bind_returns, Sent, Sent-subst, publish_marshalled-Sent, returns_inj}
use synk.Mongo.Notices.{
  mod_notice, add_notice, stays, moves, IsResolved, resolve-IsResolved, tag_set_sub-IsResolved,
  Modified,
}

module _ {O D W Doc : Type 0} (I : Object O D) (S : Service W Doc) (bson : Bson O Doc) where
  module _ (law : IsObject I) (ops : IsService S) where
    stays-Modified :
        (o : O) (w : W)
        → I.get_sub_key o ≡ I.get_prev_sub_key o
        → let p = (I.resolve o).1 in
          let m = mod_notice I o p [] in
          let d = bson.to_doc p in
          (S.update_id m.id d w).0 ≡ none
          → (v : W) → Sent S (marshal_mod I.marshal m) m.s_key (S.update_id m.id d w).1 v
          → Modified I S bson (record { object = o; world = w }) (record { object = p; world = v })
    stays-Modified o w same updated v sent =
        let p = (I.resolve o).1 in
        let d = bson.to_doc p in
        let id = I.tag_get_id o in
        record {
          object = resolve-IsResolved I law o same;
          known = ops.update_id_known id d w updated;
          documents = λ k. sent.documents k ∙ ops.document-update_id id d w k updated;
          out = (I.get_prev_sub_key o, sent.bytes) ∷ [];
          published = cc (sent.published, ops.published-update_id id d w);
          notices = stays sent.bytes same sent.marshalled refl;
        }

    moves-Modified :
        (o p : O) (w : W)
        → I.get_sub_key o ≢ I.get_prev_sub_key o
        → IsResolved I o p
        → let m = mod_notice I o p (I.get_sub_key o) in
          let d = bson.to_doc p in
          (S.update_id m.id d w).0 ≡ none
          → (u v : W) → Sent S (marshal_mod I.marshal m) m.s_key (S.update_id m.id d w).1 u
          → Sent S
              (map_ok
                (with_header (I.get_prev_sub_key o))
                (marshal_add I.marshal (add_notice I o p)))
              (I.get_sub_key o)
              u
              v
          → Modified I S bson (record { object = o; world = w }) (record { object = p; world = v })
    moves-Modified o p w differ object updated u v mod_sent add_sent =
        let d = bson.to_doc p in
        let id = I.tag_get_id o in
        let (c, marshalled, bytes) = map_ok-eq-ok _ _ _ add_sent.marshalled in
        record {
          object = object;
          known = ops.update_id_known id d w updated;
          documents = λ k.
              add_sent.documents k ∙ mod_sent.documents k ∙ ops.document-update_id id d w k updated;
          out =
              (I.get_prev_sub_key o, mod_sent.bytes)
              ∷ (I.get_sub_key o, with_header (I.get_prev_sub_key o) c)
              ∷ [];
          published =
              add_sent.published
              ∙ ap (λ b. S.published u ++ (I.get_sub_key o, b) ∷ []) bytes
              ∙ ap (λ l. l ++ (I.get_sub_key o, with_header (I.get_prev_sub_key o) c) ∷ [])
                  (mod_sent.published
                    ∙ ap (λ l. l ++ (I.get_prev_sub_key o, mod_sent.bytes) ∷ [])
                        (ops.published-update_id id d w))
              ∙ append_assoc (S.published w) ((I.get_prev_sub_key o, mod_sent.bytes) ∷ []) _;
          notices = moves mod_sent.bytes c differ mod_sent.marshalled marshalled refl;
        }

    modify_simple-Modified :
        (o : O) (w : W) (e : Error)
        → I.get_sub_key o ≡ I.get_prev_sub_key o
        → let r =
            modify_simple I S bson
              (mod_notice I o (I.resolve o).1 [])
              (record { object = (I.resolve o).1; world = w }) in
          r.0 ≡ returns e → (e ≡ none) × Modified I S bson (record { object = o; world = w }) r.1
    unfolding modify_simple send_mod
    modify_simple-Modified o w e same h =
        let (updated, first) = checked-bind_returns _ _ _ _ e h in
        let (sent, second) = checked-bind_returns _ _ _ _ e (ap (λ r. r.0) (sym first) ∙ h) in
        let all = first ∙ second in
        (
          returns_inj e none (sym h ∙ ap (λ r. r.0) all),
          subst (λ r. Modified I S bson (record { object = o; world = w }) r.1) (sym all)
              (stays-Modified o w same updated _ (publish_marshalled-Sent S ops _ _ _ sent)),
        )

    -- The object that the moved branch leaves.
    abbrev moved : O → O
    moved o = I.tag_set_sub (I.get_sub_key o) (I.tag_set_sub (I.get_sub_key o) (I.resolve o).1)

    moved-IsResolved : (o : O) → I.get_sub_key o ≢ I.get_prev_sub_key o → IsResolved I o (moved o)
    moved-IsResolved o differ =
        let q = (I.resolve o).1 in
        let body = law.tag_set_sub-SameBody (I.get_sub_key o) q in
        tag_set_sub-IsResolved I law o (I.tag_set_sub (I.get_sub_key o) q)
          (body.sub_key ∙ law.sub_key-resolve o) (body.prev_sub_key ∙ law.prev_sub_key-resolve o)
          (body.type_key ∙ law.type_key-resolve o)
          (law.tag_get_id-tag_set_sub (I.get_sub_key o) q ∙ law.tag_get_id-resolve o)
          (body.version ∙ law.version-resolve o) body.state (body.changed ∙ law.changed-resolve o)
          differ

    mod_notice-moved :
        (o : O)
        → mod_notice I o (I.resolve o).1 (I.get_sub_key o)
          ≡ mod_notice I o (moved o) (I.get_sub_key o)
    mod_notice-moved o =
        let q = (I.resolve o).1 in
        let outer =
          law.tag_set_sub-SameBody (I.get_sub_key o) (I.tag_set_sub (I.get_sub_key o) q) in
        let same = sym (outer.version ∙ (law.tag_set_sub-SameBody (I.get_sub_key o) q).version) in
        λ i. record (mod_notice I o q (I.get_sub_key o)) { version = same i }

    add_notice-moved :
        (o : O)
        → I.get_sub_key o ≢ I.get_prev_sub_key o
        → let m = I.tag_set_sub (I.get_sub_key o) (I.resolve o).1 in
          record {
            state = I.state m;
            id = I.tag_get_id o;
            s_key = I.get_sub_key o;
            ps_key = I.get_prev_sub_key o;
            version = I.version m;
            type = I.type_key m;
          }
          ≡ add_notice I o (moved o)
    add_notice-moved o differ =
        let m = I.tag_set_sub (I.get_sub_key o) (I.resolve o).1 in
        let body = law.tag_set_sub-SameBody (I.get_sub_key o) m in
        let end = moved-IsResolved o differ in
        λ i. record {
          state = sym body.state i;
          id = sym end.id i;
          s_key = sym end.sub_key i;
          ps_key = I.get_prev_sub_key o;
          version = sym body.version i;
          type = sym body.type_key i;
        }

    modify_moved-Modified :
        (o : O) (w : W) (e : Error)
        → I.get_sub_key o ≢ I.get_prev_sub_key o
        → let r =
            modify_moved I S bson
              (mod_notice I o (I.resolve o).1 (I.get_sub_key o))
              (I.get_prev_sub_key o)
              (I.get_sub_key o)
              (record { object = (I.resolve o).1; world = w }) in
          r.0 ≡ returns e → (e ≡ none) × Modified I S bson (record { object = o; world = w }) r.1
    unfolding modify_moved send_mod send_add_from
    modify_moved-Modified o w e differ h =
        let header = with_header (I.get_prev_sub_key o) in
        let (updated, first) = checked-bind_returns _ _ _ _ e h in
        let (sent, second) = checked-bind_returns _ _ _ _ e (ap (λ r. r.0) (sym first) ∙ h) in
        let two = first ∙ second in
        let (added, third) = checked-bind_returns _ _ _ _ e (ap (λ r. r.0) (sym two) ∙ h) in
        let all = two ∙ third in
        (
          returns_inj e none (sym h ∙ ap (λ r. r.0) all),
          subst (λ r. Modified I S bson (record { object = o; world = w }) r.1) (sym all)
              (moves-Modified o (moved o) w differ (moved-IsResolved o differ) updated _ _
                (Sent-subst S (ap (marshal_mod I.marshal) (mod_notice-moved o))
                  (publish_marshalled-Sent S ops _ _ _ sent))
                (Sent-subst S
                  (ap (λ m. map_ok header (marshal_add I.marshal m)) (add_notice-moved o differ))
                  (publish_marshalled-Sent S ops _ _ _ added))),
        )

    modify_stays :
        (s : Session O W)
        → I.get_sub_key s.object ≡ I.get_prev_sub_key s.object
        → modify I S bson s
          ≡ modify_simple I S bson
              (mod_notice I s.object (I.resolve s.object).1 [])
              (record s { object = (I.resolve s.object).1 })
    unfolding modify
    modify_stays s same = rw (if_pos _ same)

    modify_moves :
        (s : Session O W)
        → I.get_sub_key s.object ≢ I.get_prev_sub_key s.object
        → modify I S bson s
          ≡ modify_moved I S bson
              (mod_notice I s.object (I.resolve s.object).1 (I.get_sub_key s.object))
              (I.get_prev_sub_key s.object)
              (I.get_sub_key s.object)
              (record s { object = (I.resolve s.object).1 })
    unfolding modify
    modify_moves s differ = rw (if_neg _ differ)

    -- A Modify that returns has returned nil, the object's document was there and is the only one
    -- that has changed, the object is resolved, of the next version, and where it has moved to,
    -- its tag has the new key if the object has moved and is as it was if not, and exactly the
    -- messages of Notices have been published, for any object and service that keep their laws.
    pub modify-Modified :
        (s : Session O W) (e : Error)
        → (modify I S bson s).0 ≡ returns e
        → (e ≡ none) × Modified I S bson s (modify I S bson s).1
    modify-Modified s e h =
        elim (text_eq.dec (I.get_sub_key s.object) (I.get_prev_sub_key s.object)) [
          | yes same ↦ rw (modify_stays s same) (
              modify_simple-Modified s.object s.world e same
                (ap (λ r. r.0) (sym (modify_stays s same)) ∙ h))
          | no differ ↦ rw (modify_moves s differ) (
              modify_moved-Modified s.object s.world e differ
                (ap (λ r. r.0) (sym (modify_moves s differ)) ∙ h))
        ]
