-- ===== src/RedisSynk/Trip.antt =====
-- What RedisRequestObjects finds after a change: the object that was stored.
use synk.Base.{
  ℕ, Text, true, Option, none, some, List, [], ◌∷◌, take-length-append, length, nat_eq, text_eq,
  ◌≡◌, ◌≢◌, refl, sym, ap, subst, ◌∙◌, inl, inr, map, arith,
}
use synk.Base.Index.{Lacks, last_index-append}
use synk.Result.{ok}
use synk.Service.{In}
use synk.Object.{Object, IsObject}
use synk.Mongo.{Session}
use synk.Redis.{Redis, IsRedis, View}
use synk.RedisSynk.{redis_key, object_json, redis_new_object, redis_mod_object}
use synk.RedisSynk.Modify.{redis_mod_object-Modified}
use synk.RedisSynk.Create.{redis_new_object-Created}
use synk.RedisSynk.Load.{
  Source, get_keys_objects, request_byte_slices, type_of_key, request_loop, beside, request_objects,
  read_item, AllKnown, in-request_loop,
}

-- Documented behaviour: SUNION without an error has the members of all the sets, and no key that it
-- was asked for holds a string; MGET has the value of each key, in order.
pub record IsSource {O : Type 0} (S : Source O) (v : View) : Type 0 where
  pub in-sunion :
      (ks ids : List Text)
      → S.sunion ks ≡ ok ids
      → (k id : Text) → In k ks
      → v.member k id ≡ true
      → In id ids
  pub string-sunion :
      (ks ids : List Text) → S.sunion ks ≡ ok ids → (k : Text) → In k ks → v.string k ≡ none
  pub mget-map :
      (ids : List Text) (vals : List (Option Text)) → S.mget ids ≡ ok vals → vals ≡ map v.string ids

module _ {O : Type 0} (S : Source O) where
  length-map : (f : Text → Option Text) (ids : List Text) → length (map f ids) ≡ length ids
  length-map f [] = refl
  length-map f (id ∷ ids) = omega (arith, length-map f ids)

  in-beside :
      (f : Text → Option Text) (ids : List Text) (id : Text)
      → In id ids
      → In (id, f id) (beside S ids (map f ids))
  unfolding beside
  in-beside f [] id h = absurd h
  in-beside f (j ∷ ids) id (inl same) = inl (ap (λ x. (x, f x)) same)
  in-beside f (j ∷ ids) id (inr at) = inr (in-beside f ids id at)

  all_known :
      ((t : Text) → S.container t ≢ none) → (items : List (Text × Option Text)) → AllKnown S items
  all_known h [] = tt
  all_known h (item ∷ items) = (h (type_of_key S item.0), all_known h items)

  get_keys_objects-ok :
      (ks ids : List Text) (vals : List (Option Text)) (id : Text)
      → In id ids
      → S.sunion ks ≡ ok ids
      → S.mget ids ≡ ok vals
      → get_keys_objects S ks ≡ ok (ids, vals)
  unfolding get_keys_objects
  get_keys_objects-ok ks [] vals id at united got = absurd at
  get_keys_objects-ok ks (j ∷ ids) vals id at united got =
      rw (united, get_keys_objects) (ground (arith, got))

  request_byte_slices-ok :
      (ks ids : List Text) (vals : List (Option Text))
      → get_keys_objects S ks ≡ ok (ids, vals)
      → length ids ≡ length vals
      → request_byte_slices S ks ≡ ok (ids, vals)
  unfolding request_byte_slices
  request_byte_slices-ok ks ids vals h same = rw (h, request_byte_slices) (ground arith)

  request_objects-ok :
      (ks ids : List Text) (vals : List (Option Text))
      → request_byte_slices S ks ≡ ok (ids, vals)
      → request_objects S ks ≡ request_loop S [] none (beside S ids vals)
  unfolding request_objects
  request_objects-ok ks ids vals h = rw (h, request_objects) refl

  -- Where both commands have no error, an object that can be read from a member's value is found.
  in-request_objects :
      (v : View)
      → IsSource S v
      → ((t : Text) → S.container t ≢ none)
      → (ks ids : List Text) (vals : List (Option Text)) (k id : Text) (p : O)
      → S.sunion ks ≡ ok ids
      → S.mget ids ≡ ok vals
      → In k ks
      → v.member k id ≡ true
      → read_item S (id, v.string id) ≡ ok p
      → In p (request_objects S ks).0
  in-request_objects v law known ks ids vals k id p united got at member read =
      let there = law.in-sunion ks ids united k id at member in
      let mapped = law.mget-map ids vals got in
      let keyed = get_keys_objects-ok ks ids vals id there united got in
      let sliced =
        request_byte_slices-ok ks ids vals keyed
          (sym (ap length mapped ∙ length-map v.string ids)) in
      let item : In (id, v.string id) (beside S ids vals) =
        subst (λ l. In (id, v.string id) (beside S ids l)) (sym mapped)
          (in-beside v.string ids id there) in
      subst (λ r. In p r.0) (sym (request_objects-ok ks ids vals sliced))
        ((in-request_loop S [] none (beside S ids vals) p (all_known known (beside S ids vals))).1
          (inr ((id, v.string id), item, read)))

  read_item-ok :
      (key t : Text) (val : Option Text) (c q : O)
      → type_of_key S key ≡ t
      → S.container t ≡ some c
      → S.unmarshal val c ≡ ok q
      → read_item S (key, val) ≡ ok q
  unfolding read_item
  read_item-ok key t val c q typed makes parsed =
      rw (typed, read_item) (rw (makes, read_item) parsed)

module _ {O D W : Type 0} (I : Object O D) (R : Redis W) (S : Source O) where
  -- The text, read into a container of the type, is among the objects.
  pub record Found (o : O) (j : Text) (objs : List O) : Type 0 where
    pub container : O
    pub makes : S.container (I.type_key o) ≡ some container
    pub object : O
    pub parsed : S.unmarshal (some j) container ≡ ok object
    pub found : In object objs

  type_of_key-redis_key :
      (o : O) → Lacks b':' (I.tag_get_id o) → type_of_key S (redis_key I o) ≡ I.type_key o
  unfolding redis_key type_of_key
  type_of_key-redis_key o h =
      rw (last_index-append b':' (I.type_key o) (I.tag_get_id o) h, type_of_key)
        (take-length-append (I.type_key o) (b':' ∷ I.tag_get_id o))

  -- The container reads the JSON text of an object of its type.
  pub record Reads (o p : O) : Type 0 where
    pub container : O
    pub makes : S.container (I.type_key o) ≡ some container
    pub reads :
        (j : Text) → object_json I p ≡ ok j → (q : O) × (S.unmarshal (some j) container ≡ ok q)

  -- A member of a set whose value is the text of an object is found by a request for the set.
  held-Found :
      (v : View) (o p : O) (j key : Text) (ks ids : List Text) (vals : List (Option Text))
      → IsSource S v
      → ((t : Text) → S.container t ≢ none)
      → Lacks b':' (I.tag_get_id o)
      → Reads o p
      → object_json I p ≡ ok j
      → v.string (redis_key I o) ≡ some j
      → v.member key (redis_key I o) ≡ true
      → In key ks
      → S.sunion ks ≡ ok ids
      → S.mget ids ≡ ok vals
      → Found o j (request_objects S ks).0
  held-Found v o p j key ks ids vals law known lacks reads json held member at united got =
      let (q, parsed) = reads.reads j json in
      let read =
        ap (λ x. read_item S (redis_key I o, x)) held
        ∙ read_item-ok S (redis_key I o) (I.type_key o) (some j) reads.container q
            (type_of_key-redis_key o lacks) reads.makes parsed in
      record {
        container = reads.container;
        makes = reads.makes;
        object = q;
        parsed = parsed;
        found =
            in-request_objects S v law known ks ids vals key (redis_key I o) q united got at member
              read;
      }

  module _ (law : IsObject I) (ops : IsRedis R) (known : (t : Text) → S.container t ≢ none) where
    -- After a redisModObject without an error, RedisRequestObjects of the object's new key, if
    -- SUNION and MGET have no error, has the object that the stored text of the resolved object
    -- reads as, where the ID has no colon, no subscription key is the key of a string, there is
    -- a container for every type, and the one for the object's type can read the text, for any
    -- object and any Redis that keep their laws.
    pub request_objects-redis_mod_object :
        (s : Session O W) (ids : List Text) (vals : List (Option Text))
        → (R.view s.world).string (I.get_prev_sub_key s.object) ≡ none
        → (R.view s.world).string (I.get_sub_key s.object) ≡ none
        → Lacks b':' (I.tag_get_id s.object)
        → let r = redis_mod_object I R s in
          r.0 ≡ none
          → Reads s.object r.1.object
          → IsSource S (R.view r.1.world)
          → S.sunion (I.get_sub_key s.object ∷ []) ≡ ok ids
          → S.mget ids ≡ ok vals
          → (j : Text) × (object_json I r.1.object ≡ ok j)
            × Found s.object j (request_objects S (I.get_sub_key s.object ∷ [])).0
    request_objects-redis_mod_object s ids vals fits there lacks h reads source united got =
        let r = redis_mod_object I R s in
        let done = redis_mod_object-Modified I R law ops s fits there h in
        let key = redis_key I s.object in
        let sub = I.get_sub_key s.object in
        (
          done.json,
          done.marshalled,
          held-Found (R.view r.1.world) s.object r.1.object done.json sub (sub ∷ []) ids vals source
              known lacks reads done.marshalled (done.stored.string key ∙ ground arith)
              (done.stored.member sub key
                ∙ ground (
                  arith,
                  source.string-sunion (sub ∷ []) ids united sub (inl refl),
                  done.stored.string sub,
                ))
              (inl refl) united got,
        )

    -- And so after a redisNewObject without an error, of the object's key at first.
    pub request_objects-redis_new_object :
        (draws : ℕ → ℕ) (s : Session O W) (ids : List Text) (vals : List (Option Text))
        → (R.view s.world).string (I.get_sub_key s.object) ≡ none
        → I.get_sub_key s.object ≢ redis_key I s.object
        → Lacks b':' (I.tag_get_id s.object)
        → let r = redis_new_object I R draws s in
          r.0 ≡ none
          → Reads s.object r.1.object
          → IsSource S (R.view r.1.world)
          → S.sunion (I.get_sub_key s.object ∷ []) ≡ ok ids
          → S.mget ids ≡ ok vals
          → (j : Text) × (object_json I r.1.object ≡ ok j)
            × Found s.object j (request_objects S (I.get_sub_key s.object ∷ [])).0
    request_objects-redis_new_object draws s ids vals fits apart lacks h reads source united got =
        let r = redis_new_object I R draws s in
        let done = redis_new_object-Created I R ops draws s fits apart h in
        let key = redis_key I s.object in
        let sub = I.get_sub_key s.object in
        (
          done.json,
          done.marshalled,
          held-Found (R.view r.1.world) s.object r.1.object done.json sub (sub ∷ []) ids vals source
              known lacks reads done.marshalled (ap (λ v. v.string key) done.stored ∙ ground arith)
              (ap (λ v. v.member sub key) done.stored ∙ ground arith) (inl refl) united got,
        )
