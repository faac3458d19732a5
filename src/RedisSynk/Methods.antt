-- ===== src/RedisSynk/Methods.antt =====
-- The methods of RedisSynk, each on a connection of its own: the functions of the parent, and
-- Publish.
use synk.Base.{ℕ, Text, none, some, List}
use synk.Result.{ok, err, Error, error_of}
use synk.Object.{Object}
use synk.Mongo.{Session, Payload, raw_bytes, value}
use synk.Redis.{Redis, publish}
use synk.RedisSynk.{redis_new_object, redis_del_object, redis_mod_object}
use synk.RedisSynk.Load.{Source, request_objects}

module _ {O D W : Type 0} (I : Object O D) (R : Redis W) where
  unfoldable pub create : (ℕ → ℕ) → Session O W → Error × Session O W
  unfolding redis_new_object
  create draws s = redis_new_object I R draws s

  unfoldable pub delete : Session O W → Error × Session O W
  unfolding redis_del_object
  delete s = redis_del_object I R s

  unfoldable pub modify : Session O W → Error × Session O W
  unfolding redis_mod_object
  modify s = redis_mod_object I R s

unfoldable pub load : {O : Type 0} → Source O → List Text → List O × Error
unfolding request_objects
load S sub_keys = request_objects S sub_keys

module _ {W : Type 0} (R : Redis W) where
  unfoldable pub close : W → Error × W
  close w = (none, w)

  unfoldable pub publish_message : Text → Payload → W → Error × W
  publish_message channel (raw_bytes bytes) w =
      let (r, v) = R.call (publish channel bytes) w in (error_of r, v)
  publish_message channel (value (ok bytes)) w =
      let (r, v) = R.call (publish channel bytes) w in (error_of r, v)
  publish_message channel (value (err e)) w = (some e, w)
