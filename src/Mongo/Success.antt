-- ===== src/Mongo/Success.antt =====
-- When `Modify` succeeds.
use synk.Base.{Text, none, ◌≡◌, ◌≢◌, ap, ◌∙◌, text_eq}
use mathlib.Core.Logic.{if_pos, if_neg}
use synk.Result.{map_ok-IsOk, IsOk, returns}
use synk.Object.{Object, IsObject}
use synk.Service.{Service, IsService, IsReliable}
use synk.Wire.Message.{ModMsg, marshal_add-IsOk, marshal_mod-IsOk}
use synk.Mongo.{Bson, Session, modify, modify_simple, modify_moved, send_mod, send_add_from}
use synk.Mongo.Steps.{checked-bind_ok, publish_marshalled_ok}

module _ {O D W Doc : Type 0} (I : Object O D) (S : Service W Doc) (bson : Bson O Doc) where
  module _ (law : IsObject I) (ops : IsService S) (live : IsReliable S)
      (marshals : (d : D) → IsOk (I.marshal d)) where
    modify_simple_total :
        (msg : ModMsg D) (s : Session O W)
        → S.document msg.id s.world ≢ none
        → S.id_of (bson.to_doc s.object) ≡ msg.id
        → (modify_simple I S bson msg s).0 ≡ returns none
    unfolding modify_simple send_mod
    modify_simple_total msg s known same =
        ap (λ r. r.0) (checked-bind_ok _ _ _ _ (live.updates msg.id _ s.world known same))
        ∙ ap (λ r. r.0)
            (checked-bind_ok _ _ _ _ (
              publish_marshalled_ok S ops live _ _ _
                (marshal_mod-IsOk I.marshal msg (marshals msg.diff))))

    modify_moved_total :
        (msg : ModMsg D) (psk nsk : Text) (s : Session O W)
        → S.document msg.id s.world ≢ none
        → S.id_of (bson.to_doc (I.tag_set_sub nsk (I.tag_set_sub nsk s.object))) ≡ msg.id
        → (modify_moved I S bson msg psk nsk s).0 ≡ returns none
    unfolding modify_moved send_mod send_add_from
    modify_moved_total msg psk nsk s known same =
        ap (λ r. r.0) (checked-bind_ok _ _ _ _ (live.updates msg.id _ s.world known same))
        ∙ ap (λ r. r.0)
            (checked-bind_ok _ _ _ _ (
              publish_marshalled_ok S ops live _ _ _
                (marshal_mod-IsOk I.marshal msg (marshals msg.diff))))
        ∙ ap (λ r. r.0)
            (checked-bind_ok _ _ _ _ (
              publish_marshalled_ok S ops live _ _ _
                (map_ok-IsOk _ _ (marshal_add-IsOk I.marshal _ (marshals _)))))

    -- With reliable services, an object whose document is there, under the object's ID, and whose
    -- states can be marshalled, is modified: Modify returns nil.
    pub modify_total :
        ((o : O) → S.id_of (bson.to_doc o) ≡ I.tag_get_id o)
        → (s : Session O W) → S.document (I.tag_get_id s.object) s.world ≢ none
        → (modify I S bson s).0 ≡ returns none
    unfolding modify
    modify_total same s known =
        elim (text_eq.dec (I.get_sub_key s.object) (I.get_prev_sub_key s.object)) [
          | yes p ↦
              rw (if_pos _ p)
                (modify_simple_total _ _ known (same _ ∙ law.tag_get_id-resolve s.object))
          | no n ↦ rw (if_neg _ n) (
              modify_moved_total _ _ _ _ known (
                same _
                ∙ law.tag_get_id-tag_set_sub _ _
                ∙ law.tag_get_id-tag_set_sub _ _
                ∙ law.tag_get_id-resolve s.object))
        ]
