-- ===== src/RedisSynk/Delete.antt =====
-- What `redisDelObject` leaves in Redis.
use synk.Base.{
  Text, none, [], ◌∷◌, ◌++◌, ◌≡◌, refl, sym, subst, false, ◌||◌, ◌&&◌, ◌==◌, text_eq, arith,
  if◌then◌else◌,
}
use synk.Result.{ok}
use synk.Object.{Object}
use synk.Wire.Message.{marshal_rem}
use synk.Mongo.{Session}
use synk.Redis.{Redis, IsRedis, View, del, srem, publish, run}
use synk.RedisSynk.{redis_key, redis_del_object, exec}

-- What the deletion of an object does to the server: its text and its place in the set are gone, and
-- whatever set there is under the key of the text; nothing else changes, and one message is out.
pub record Gone (psk key bytes : Text) (v w : View) : Type 0 where
  pub string : (k : Text) → w.string k ≡ (if k == key then none else v.string k)
  pub member :
      (k m : Text)
      → w.member k m ≡ (if (k == key) || ((k == psk) && (m == key)) then false else v.member k m)
  pub log : w.log ≡ v.log ++ (psk, bytes) ∷ []

run-delete :
    (psk key bytes : Text) (v : View)
    → Gone psk key bytes v (run (srem psk key ∷ del key ∷ publish psk bytes ∷ []) v)
run-delete psk key bytes v = record { string = λ k. refl; member = λ k m. ground arith; log = refl }

module _ {O D W : Type 0} (I : Object O D) (R : Redis W) (ops : IsRedis R) where
  -- A redisDelObject without an error, where the subscription key is not the key of a string, has
  -- kept the object, has deleted its text and its place in the set of its previous subscription
  -- key, has changed no other string and no other place in a set but in one under the key of the
  -- text, and has published the rem message of MongoSynk there.
  pub redis_del_object-Gone :
      (s : Session O W)
      → (R.view s.world).string (I.get_prev_sub_key s.object) ≡ none
      → (redis_del_object I R s).0 ≡ none
      → let t = (redis_del_object I R s).1 in
        (t.object ≡ s.object)
        × ((bytes : Text) × (marshal_rem (record {
          s_key = I.get_prev_sub_key s.object;
          id = I.tag_get_id s.object;
          type = I.type_key s.object;
        })
              ≡ ok bytes)
            × Gone
                (I.get_prev_sub_key s.object)
                (redis_key I s.object)
                bytes
                (R.view s.world)
                (R.view t.world))
  unfolding redis_del_object exec marshal_rem
  redis_del_object-Gone s fits h = (
    refl,
    (
      _,
      refl,
      subst (Gone _ _ _ (R.view s.world))
          (sym (ops.view-transact _ s.world h (fits, (tt, (tt, tt)))))
          (run-delete _ _ _ (R.view s.world)),
    ),
  )
