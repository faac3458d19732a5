-- ===== src/Replica/Redis.antt =====
-- RedisSynk as a Mutator.
use synk.Base.{ℕ, Text, none, List, [], ◌∷◌, ◌++◌, ◌≡◌, ◌≢◌, refl, sym, subst, ap, ◌∙◌}
use synk.Result.{Outcome, Error, returns}
use synk.Object.{Object, IsObject}
use synk.Wire.Message.{marshal_add}
use synk.Mongo.{Session, prepare}
use synk.Mongo.Create.{announce, prepare-IsPrepared}
use synk.Redis.{Redis, IsRedis}
use synk.RedisSynk.{redis_key}
use synk.RedisSynk.Methods.{create, modify, delete}
use synk.RedisSynk.Create.{new_notice, redis_new_object-Created}
use synk.RedisSynk.Modify.{redis_mod_object-Modified}
use synk.RedisSynk.Delete.{redis_del_object-Gone}
use synk.Replica.Mutator.{
  Call, creates, modifies, deletes, Mutator, perform, Announced, Told, IsMutator,
}

-- A method that does not panic
abbrev returning : {O W : Type 0} → Error × Session O W → Outcome Error × Session O W
returning r = (returns r.0, r.1)

module _ {O D W : Type 0} (I : Object O D) (R : Redis W) where
  -- No subscription key is the key of a string, or of the object; and its creation leaves the
  -- object where it is.
  abbrev pub Fits : Call → Session O W → Type 0
  Fits (creates draws) s =
      ((R.view s.world).string (I.get_sub_key s.object) ≡ none)
      × (I.get_sub_key s.object ≢ redis_key I s.object)
      × (I.get_sub_key (prepare I draws s.object).1 ≡ I.get_sub_key s.object)
  Fits modifies s =
      ((R.view s.world).string (I.get_prev_sub_key s.object) ≡ none)
      × ((R.view s.world).string (I.get_sub_key s.object) ≡ none)
  Fits deletes s = (R.view s.world).string (I.get_prev_sub_key s.object) ≡ none

  abbrev pub redis_mutator : Mutator O W
  redis_mutator = record {
    create = λ draws s. returning (create I R draws s);
    modify = λ s. returning (modify I R s);
    delete = λ s. returning (delete I R s);
    published = λ w. (R.view w).log;
    Allowed = Fits;
  }

  returns_inj : (e f : Error) → ◌≡◌ {A = Outcome Error} (returns e) (returns f) → e ≡ f
  returns_inj e f h = cc

  -- The message of a creation that leaves the object where it is announces it.
  new_notice-announce :
      IsObject I
      → (draws : ℕ → ℕ) (o : O)
      → let p = (prepare I draws o).1 in
        I.get_sub_key p ≡ I.get_sub_key o → new_notice I R o p ≡ announce I p
  new_notice-announce law draws o same =
      let p = (prepare I draws o).1 in
      let typed = (prepare-IsPrepared I law draws o).type_key in
      λ i. record (announce I p) { s_key = sym same i; type = sym typed i }

  -- What becomes of the subscription key in the object's tag
  abbrev pub Tagged : Call → O → O → Type 0
  Tagged (creates draws) o p = I.tag_sub p ≡ I.get_sub_key p
  Tagged modifies o p = I.tag_sub p ≡ I.tag_sub o
  Tagged deletes o p = I.tag_sub p ≡ I.tag_sub o

  -- A Create, Modify or Delete of RedisSynk without an error keeps the promise of Mutator to
  -- clients: a created object is resolved and announced where it is; a modified one has the
  -- next version and the state that Resolve leaves, and is where it has moved to, and clients are
  -- sent the diff where it was and, if it has moved, the whole object where it is; a deleted one
  -- is as it was, and clients are told that it is gone. A created object is tagged with its key,
  -- but Modify leaves the tag as it was, also where the object has moved. This holds where no
  -- subscription key is the key of a string, that of a created object is not the object's key in
  -- Redis, the creation leaves the object where it is, and the object and the Redis server keep
  -- their laws.
  pub redis_tells :
      IsObject I
      → IsRedis R
      → (c : Call) (s : Session O W) → Fits c s
      → (perform redis_mutator c s).0 ≡ returns none
      → let t = (perform redis_mutator c s).1 in
        (out : List (Text × Text)) × ((R.view t.world).log ≡ (R.view s.world).log ++ out)
        × Told I c s.object t.object out
        × Tagged c s.object t.object
  unfolding create modify delete
  redis_tells law ops (creates draws) s fits h =
      let o = s.object in
      let done = redis_new_object-Created I R ops draws s fits.0 fits.1 (returns_inj _ none h) in
      let p = (prepare I draws o).1 in
      let prepared = prepare-IsPrepared I law draws o in
      subst
        (λ q.
          (out : List (Text × Text)) × ((R.view (create I R draws s).1.world).log
            ≡ (R.view s.world).log ++ out)
          × Announced I o q out
          × (I.tag_sub q ≡ I.get_sub_key q))
        (sym done.object)
        (
          (I.get_sub_key o, done.bytes) ∷ [],
          ap (λ v. v.log) done.stored,
          record {
            resolved = prepared.resolved;
            bytes = done.bytes;
            marshalled =
                ap (marshal_add I.marshal) (
                  sym (new_notice-announce law draws o fits.2)
                  ∙ ap (new_notice I R o) (sym done.object))
                ∙ done.announced;
            publishes = ap (λ k. (k, done.bytes) ∷ []) (sym fits.2);
          },
          prepared.tagged ∙ sym prepared.sub_key,
        )
  redis_tells law ops modifies s fits h =
      let o = s.object in
      let done = redis_mod_object-Modified I R law ops s fits.0 fits.1 (returns_inj _ none h) in
      (
        done.out,
        done.stored.log,
        record {
          prev_sub_key = ap I.get_prev_sub_key done.resolved ∙ law.prev_sub_key-resolve o;
          id = ap I.tag_get_id done.resolved ∙ law.tag_get_id-resolve o;
          version = ap I.version done.resolved ∙ law.version-resolve o;
          state = ap I.state done.resolved;
          notices = done.notices;
        },
        ap I.tag_sub done.resolved ∙ law.tag_sub-resolve o,
      )
  redis_tells law ops deletes s fits h =
      let (object, (bytes, marshalled, gone)) =
        redis_del_object-Gone I R ops s fits (returns_inj _ none h) in
      (
        _,
        gone.log,
        record { object = object; bytes = bytes; marshalled = marshalled; publishes = refl },
        ap I.tag_sub object,
      )

  -- For an object and a server that keep their laws, RedisSynk tells clients what a Mutator must.
  pub redis_mutator-IsMutator : IsObject I → IsRedis R → IsMutator I redis_mutator
  redis_mutator-IsMutator law ops = record {
    tells = λ c s fits h.
        let (out, published, told, tagged) = redis_tells law ops c s fits h in
        (out, published, told);
  }
