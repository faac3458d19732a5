-- ===== src/RedisSynk/Create.antt =====
-- What `redisNewObject` leaves in Redis.
use synk.Base.{
  ℕ, Text, codes, Option, none, some, [], ◌∷◌, ◌≡◌, ◌≢◌, refl, sym, ap, subst, ◌∙◌, inl, inr,
  text_eq, arith,
}
use synk.Result.{Result, Result-cases, ok, err}
use synk.Object.{Object}
use synk.Wire.Message.{AddMsg, marshal_add}
use synk.Mongo.{Session, prepare}
use synk.Redis.{Redis, IsRedis, set, sadd, publish, run}
use synk.RedisSynk.{
  redis_key, redis_new_object, store_new, set_and_publish, script_error, object_json,
}
use synk.RedisSynk.Script.{set_and_publish_lem}

none-some : {o : Option Text} {t : Text} → o ≡ none → o ≡ some t → ⊥
none-some h e = ground arith

module _ {O D W : Type 0} (I : Object O D) (R : Redis W) where
  -- The message of a creation, on the subscription key that the object had at first.
  abbrev pub new_notice : O → O → AddMsg D
  new_notice o p = record {
    state = I.state p;
    id = I.tag_get_id p;
    s_key = I.get_sub_key o;
    ps_key = [];
    version = I.version p;
    type = I.type_key o;
  }

  -- What a creation without an error has done: the object is initialised, resolved and tagged; the
  -- key that it had at first was free; its text is stored there, the key is in the set of the
  -- subscription key that it had at first, and one message is out.
  pub record Created (draws : ℕ → ℕ) (s t : Session O W) : Type 0 where
    pub object : t.object ≡ (prepare I draws s.object).1
    pub json : Text
    pub marshalled : object_json I t.object ≡ ok json
    pub bytes : Text
    pub announced : marshal_add I.marshal (new_notice s.object t.object) ≡ ok bytes
    pub free : (R.view s.world).string (redis_key I s.object) ≡ none
    pub stored :
        let sub = I.get_sub_key s.object in
        let key = redis_key I s.object in
        R.view t.world ≡ run (set key json ∷ sadd sub key ∷ publish sub bytes ∷ []) (R.view s.world)

  script_error-none :
      (key : Text) (r : Result Text)
      → script_error key r ≡ none
      → (t : Text) × (r ≡ ok t) × (t ≢ codes "NO")
  unfolding script_error
  script_error-none key (ok t) h = (t, refl, λ e. ground arith)
  script_error-none key (err e) h = absurd (ground arith)

  module _ (ops : IsRedis R) where
    -- The script, where both texts are there
    run_script :
        (key sub obj_json msg_json : Text) (w : W)
        → (R.view w).string sub ≡ none
        → sub ≢ key
        → let r = R.eval (set_and_publish R key sub obj_json msg_json) w in
          script_error key r.0 ≡ none
          → ((R.view w).string key ≡ none)
            × (R.view r.1
                ≡ run (set key obj_json ∷ sadd sub key ∷ publish sub msg_json ∷ []) (R.view w))
    run_script key sub obj_json msg_json w fits apart h =
        let (t, replied, go_on) = script_error-none key _ h in
        let ran = ops.eval_lem (set_and_publish R key sub obj_json msg_json) w t replied in
        elim (set_and_publish_lem R ops key sub obj_json msg_json w t fits apart
          (ap (λ r. r.0) (sym ran) ∙ replied)) [
            | inl (refused, same) ↦ absurd (go_on refused)
            | inr (done, free, v) ↦ (free, ap (λ r. R.view r.1) ran ∙ v)
          ]

    -- The texts of a creation without an error, and what it comes to
    marshalled-store_new :
        (type_key sub key : Text) (s : Session O W)
        → (store_new I R type_key sub key s).0 ≡ none
        → let msg : AddMsg D = record {
          state = I.state s.object;
          id = I.tag_get_id s.object;
          s_key = sub;
          ps_key = [];
          version = I.version s.object;
          type = type_key;
        } in
          (m : Text) × (j : Text) × (marshal_add I.marshal msg ≡ ok m)
          × (object_json I s.object ≡ ok j)
          × (let r = R.eval (set_and_publish R key sub j m) s.world in
              store_new I R type_key sub key s ≡ (script_error key r.0, record s { world = r.1 }))
    unfolding store_new
    marshalled-store_new type_key sub key s h =
        let msg : AddMsg D = record {
          state = I.state s.object;
          id = I.tag_get_id s.object;
          s_key = sub;
          ps_key = [];
          version = I.version s.object;
          type = type_key;
        } in
        elim (Result-cases (marshal_add I.marshal msg)) [
          | inl (m, added) ↦ elim (Result-cases (object_json I s.object)) [
            | inl (j, json) ↦ (m, j, added, json, rw (added, store_new) (rw json refl))
            | inr (e, failed) ↦ absurd (ground arith)
          ]
          | inr (e, failed) ↦ absurd (ground arith)
        ]

    prepared :
        (draws : ℕ → ℕ) (s : Session O W)
        → redis_new_object I R draws s
          ≡ store_new I R
              (I.type_key s.object)
              (I.get_sub_key s.object)
              (redis_key I s.object)
              (record s { object = (prepare I draws s.object).1 })
    unfolding redis_new_object prepare
    prepared draws s = refl

    pub redis_new_object-Created :
        (draws : ℕ → ℕ) (s : Session O W)
        → (R.view s.world).string (I.get_sub_key s.object) ≡ none
        → I.get_sub_key s.object ≢ redis_key I s.object
        → (redis_new_object I R draws s).0 ≡ none
        → Created draws s (redis_new_object I R draws s).1
    redis_new_object-Created draws s fits apart h =
        let (m, j, added, json, ran) =
          marshalled-store_new _ _ _ (record s { object = (prepare I draws s.object).1 })
            (ap (λ r. r.0) (sym (prepared draws s)) ∙ h) in
        let e = prepared draws s ∙ ran in
        let (free, stored) =
          run_script (redis_key I s.object) (I.get_sub_key s.object) j m s.world fits apart
            (ap (λ r. r.0) (sym e) ∙ h) in
        subst (λ r. Created draws s r.1) (sym e)
          (record {
            object = refl;
            json = j;
            marshalled = json;
            bytes = m;
            announced = added;
            free = free;
            stored = stored;
          })

    -- After the creation, without an error, of an object without an ID, that of another one of the
    -- same type, without an ID, is an error, where its subscription key is not the key of a string
    -- nor that of the object.
    pub redis_new_object_twice :
        (draws next_draws : ℕ → ℕ) (s : Session O W) (o : O)
        → (R.view s.world).string (I.get_sub_key s.object) ≡ none
        → I.get_sub_key s.object ≢ redis_key I s.object
        → (redis_new_object I R draws s).0 ≡ none
        → I.tag_get_id s.object ≡ []
        → I.tag_get_id o ≡ []
        → I.type_key o ≡ I.type_key s.object
        → let w = (redis_new_object I R draws s).1.world in
          (R.view w).string (I.get_sub_key o) ≡ none
          → I.get_sub_key o ≢ redis_key I o
          → (redis_new_object I R next_draws (record { object = o; world = w })).0 ≢ none
    unfolding redis_key
    redis_new_object_twice draws next_draws s o fits apart h empty empty_too same there apart_too
          again =
        let w = (redis_new_object I R draws s).1.world in
        let first = redis_new_object-Created draws s fits apart h in
        let second =
          redis_new_object-Created next_draws (record { object = o; world = w }) there apart_too
            again in
        let one_key : redis_key I o ≡ redis_key I s.object = rw (empty, empty_too, same) refl in
        let held : (R.view w).string (redis_key I s.object) ≡ some first.json =
          ap (λ v. v.string (redis_key I s.object)) first.stored ∙ (ground arith) in
        none-some (sym (ap (R.view w).string one_key) ∙ second.free) held
