-- ===== src/Mongo/Delete.antt =====
-- What `Delete` leaves in the services and in the object.
use synk.Base.{
  Text, none, ◌∷◌, [], ◌++◌, ◌≡◌, ◌≢◌, refl, sym, ap, subst, ◌∙◌, ◌==◌, text_eq, if◌then◌else◌,
}
use synk.Result.{ok, Error, returns}
use synk.Object.{Object}
use synk.Service.{Service, IsService, IsReliable}
use synk.Wire.Message.{RemMsg, marshal_rem, marshal_rem-IsOk}
use synk.Mongo.{Session, delete, send_rem}
use synk.Mongo.Steps.{
  checked-bind_ok, checked-bind_returns, Sent, publish_marshalled-Sent, returns_inj,
  publish_marshalled_ok,
}

module _ {O D : Type 0} (I : Object O D) where
  -- The message that an object is gone, from where clients have it.
  abbrev pub rem_notice : O → RemMsg
  rem_notice o = record { s_key = I.get_prev_sub_key o; type = I.type_key o; id = I.tag_get_id o }

module _ {O D W Doc : Type 0} (I : Object O D) (S : Service W Doc) where
  -- What a successful Delete does: the object's document was there and is the only one that goes,
  -- the object is as it was, and clients of its previous key are told.
  pub record Deleted (s t : Session O W) : Type 0 where
    pub object : t.object ≡ s.object
    pub known : S.document (I.tag_get_id s.object) s.world ≢ none
    pub documents :
        (k : Text)
        → S.document k t.world ≡ (if k == I.tag_get_id s.object then none else S.document k s.world)
    pub bytes : Text
    pub marshalled : marshal_rem (rem_notice I s.object) ≡ ok bytes
    pub published :
        S.published t.world ≡ S.published s.world ++ (I.get_prev_sub_key s.object, bytes) ∷ []

  module _ (ops : IsService S) where
    Sent-Deleted :
        (o : O) (w : W)
        → let id = I.tag_get_id o in
          (S.remove_id id w).0 ≡ none
          → (v : W)
          → Sent S (marshal_rem (rem_notice I o)) (I.get_prev_sub_key o) (S.remove_id id w).1 v
          → Deleted (record { object = o; world = w }) (record { object = o; world = v })
    Sent-Deleted o w removed v sent =
        let id = I.tag_get_id o in
        record {
          object = refl;
          known = ops.remove_id_known id w removed;
          documents = λ k. sent.documents k ∙ ops.document-remove_id id w k removed;
          bytes = sent.bytes;
          marshalled = sent.marshalled;
          published = cc (sent.published, ops.published-remove_id id w);
        }

    -- For a service that keeps its laws, a Delete that returns has returned nil and done what
    -- `Deleted` says.
    pub delete-Deleted :
        (s : Session O W) (e : Error)
        → (delete I S s).0 ≡ returns e
        → (e ≡ none) × Deleted s (delete I S s).1
    unfolding delete send_rem
    delete-Deleted s e h =
        let (removed, first) = checked-bind_returns _ _ _ _ e h in
        let (sent, second) = checked-bind_returns _ _ _ _ e (ap (λ r. r.0) (sym first) ∙ h) in
        let all = first ∙ second in
        (
          returns_inj e none (sym h ∙ ap (λ r. r.0) all),
          subst (λ r. Deleted s r.1) (sym all)
              (Sent-Deleted s.object s.world removed _ (publish_marshalled-Sent S ops _ _ _ sent)),
        )

    -- With reliable services, an object whose document is there is deleted: Delete returns nil.
    pub delete_total :
        IsReliable S
        → (s : Session O W) → S.document (I.tag_get_id s.object) s.world ≢ none
        → (delete I S s).0 ≡ returns none
    unfolding delete send_rem
    delete_total live s known =
        ap (λ r. r.0) (checked-bind_ok _ _ _ _ (live.removes (I.tag_get_id s.object) s.world known))
        ∙ ap (λ r. r.0)
            (checked-bind_ok _ _ _ _
              (publish_marshalled_ok S ops live _ _ _ (marshal_rem-IsOk (rem_notice I s.object))))
