-- ===== src/Mongo/Create.antt =====
-- What `Create` leaves in the services and in the object.
use synk.Base.{
  ℕ, Text, none, some, [], ◌∷◌, ◌++◌, ◌≡◌, refl, sym, ap, subst, ◌∙◌, false, ◌==◌, text_eq,
  if◌then◌else◌,
}
use synk.Result.{IsOk, ok, Error, returns}
use synk.Object.{Object, IsObject, run_on_create}
use synk.Service.{Service, IsService, IsReliable}
use synk.Wire.Message.{AddMsg, marshal_add, marshal_add-IsOk}
use synk.Mongo.{Bson, Session, prepare, create, send}
use synk.Mongo.Steps.{
  checked-bind_ok, checked-bind_returns, Sent, returns_inj, publish_marshalled_ok,
  publish_marshalled-Sent,
}

module _ {O D : Type 0} (I : Object O D) where
  -- The add message that shows an object to clients as it is.
  abbrev pub announce : O → AddMsg D
  announce o = record {
    state = I.state o;
    id = I.tag_get_id o;
    s_key = I.get_sub_key o;
    ps_key = [];
    version = I.version o;
    type = I.type_key o;
  }

  -- An object as Create leaves it: resolved, with the subscription in its tag.
  pub record IsPrepared (key : Text) (o p : O) : Type 0 where
    pub resolved : I.changed p ≡ false
    pub sub_key : I.get_sub_key p ≡ key
    pub tagged : I.tag_sub p ≡ key
    pub type_key : I.type_key p ≡ I.type_key o

  pub prepare-IsPrepared :
      IsObject I
      → (draws : ℕ → ℕ) (o : O) → IsPrepared (prepare I draws o).0 o (prepare I draws o).1
  unfolding prepare
  prepare-IsPrepared law draws o =
      let p = run_on_create I (I.tag_init (I.type_key o) draws o) in
      let q = (I.resolve p).1 in
      let body = law.tag_set_sub-SameBody (I.get_sub_key q) q in
      record {
        resolved = body.changed ∙ law.changed-resolve p;
        sub_key = body.sub_key;
        tagged = law.tag_sub-tag_set_sub (I.get_sub_key q) q;
        type_key =
            body.type_key
            ∙ law.type_key-resolve p
            ∙ law.type_key-on_create (I.tag_init (I.type_key o) draws o)
            ∙ (law.tag_init-SameBody (I.type_key o) draws o).type_key;
      }

module _ {O D W Doc : Type 0} (I : Object O D) (S : Service W Doc) (bson : Bson O Doc) where
  -- What a successful Create does: the object is resolved and tagged with its key, its document is
  -- new and the only one that changes, and one message on that key announces the object.
  pub record Created (s t : Session O W) : Type 0 where
    pub resolved : I.changed t.object ≡ false
    pub tagged : I.tag_sub t.object ≡ I.get_sub_key t.object
    pub fresh : S.document (S.id_of (bson.to_doc t.object)) s.world ≡ none
    pub documents :
        (k : Text)
        → S.document k t.world ≡ (
            if k == S.id_of (bson.to_doc t.object)
            then some (bson.to_doc t.object)
            else S.document k s.world)
    pub bytes : Text
    pub announced : marshal_add I.marshal (announce I t.object) ≡ ok bytes
    pub published :
        S.published t.world ≡ S.published s.world ++ (I.get_sub_key t.object, bytes) ∷ []

  module _ (law : IsObject I) (ops : IsService S) where
    stored-Created :
        (key type : Text) (o p : O) (w : W)
        → IsPrepared I key o p
        → I.type_key o ≡ type
        → (S.insert (bson.to_doc p) w).0 ≡ none
        → (v : W)
        → Sent S
            (marshal_add I.marshal (record (announce I p) { s_key = key; type = type }))
            key
            (S.insert (bson.to_doc p) w).1
            v
        → Created (record { object = o; world = w }) (record { object = p; world = v })
    stored-Created key type o p w prepared typed inserted v sent = record {
      resolved = prepared.resolved;
      tagged = prepared.tagged ∙ sym prepared.sub_key;
      fresh = ops.insert_fresh (bson.to_doc p) w inserted;
      documents = λ k. sent.documents k ∙ ops.document-insert (bson.to_doc p) w k inserted;
      bytes = sent.bytes;
      announced = cc;
      published = cc (ops.published-insert (bson.to_doc p) w);
    }

    -- For an object and a service that keep their laws, a Create that returns has returned nil and
    -- done what `Created` says.
    pub create-Created :
        (draws : ℕ → ℕ) (s : Session O W) (e : Error)
        → (create I S bson draws s).0 ≡ returns e
        → (e ≡ none) × Created s (create I S bson draws s).1
    unfolding create send
    create-Created draws s e h =
        let o = s.object in
        let p = (prepare I draws o).1 in
        let (inserted, first) = checked-bind_returns _ _ _ _ e h in
        let (sent, second) = checked-bind_returns _ _ _ _ e (ap (λ r. r.0) (sym first) ∙ h) in
        let all = first ∙ second in
        (
          returns_inj e none (sym h ∙ ap (λ r. r.0) all),
          subst (λ r. Created s r.1) (sym all)
              (stored-Created (prepare I draws o).0 (I.type_key o) o p s.world
                (prepare-IsPrepared I law draws o) refl inserted _
                (publish_marshalled-Sent S ops _ _ _ sent)),
        )

    -- With reliable services, an object whose state can be marshalled and whose `_id` is not taken
    -- is created: Create returns nil.
    pub create_total :
        IsReliable S
        → ((d : D) → IsOk (I.marshal d))
        → (draws : ℕ → ℕ) (s : Session O W)
        → S.document (S.id_of (bson.to_doc (prepare I draws s.object).1)) s.world ≡ none
        → (create I S bson draws s).0 ≡ returns none
    unfolding create send
    create_total live marshals draws s free =
        let p = (prepare I draws s.object).1 in
        ap (λ r. r.0) (checked-bind_ok _ _ _ _ (live.inserts (bson.to_doc p) s.world free))
        ∙ ap (λ r. r.0)
            (checked-bind_ok _ _ _ _ (
              publish_marshalled_ok S ops live _ _ _
                (marshal_add-IsOk I.marshal _ (marshals (I.state p)))))
