-- ===== src/RedisSynk.antt =====
-- RedisSynk.go and RedisScripts.go: objects that are stored in Redis. A function acts on the object
-- that its argument points to and on the server, and returns an `error`.
pub mod Key
pub mod Load
pub mod Trip
pub mod Methods
pub mod Commands
pub mod Store
pub mod Modify
pub mod Delete
pub mod Script
pub mod Create
use synk.Base.{
  ℕ, zero, suc, ◌+◌, Text, codes, Bool, true, false, not, Option, none, some, List, [], ◌∷◌, ◌++◌,
  take, drop, length, ◌==◌, text_eq, nat_eq, if◌then◌else◌,
}
use synk.Base.Index.{last_index}
use synk.Result.{Result, ok, err, Error}
use synk.Object.{Object, run_on_create}
use synk.Wire.Json.{Json, encode}
use synk.Wire.Message.{AddMsg, ModMsg, RemMsg, marshal_add, marshal_mod, marshal_rem}
use synk.Mongo.{Session, with_header}
use synk.Redis.{Redis, Command, set, sadd, srem, del, publish}

module _ {O D : Type 0} (I : Object O D) where
  -- `redisKey`
  unfoldable pub redis_key : O → Text
  redis_key obj = I.type_key obj ++ b':' ∷ I.tag_get_id obj

-- `redisTypeAndID`
unfoldable pub redis_type_and_id : Text → Text × Text
redis_type_and_id key = elim (last_index key b':') [
  | none ↦ (key, key)
  | some index ↦ (take index key, drop (index + 1) key)
]

module _ {W : Type 0} (R : Redis W) where
  -- A command of a script; an error stops the script.
  unfoldable pub then_call :
      (W → Result Bool × W) → (Bool → W → Result Text × W) → W → Result Text × W
  then_call command next w =
      let (r, w') = command w in elim r [ ok b ↦ next b w' | err e ↦ (err e, w') ]

  -- The block under `if res` in `setAndPublishText`
  unfoldable pub add_and_publish : Text → Text → Text → W → Result Text × W
  unfolding then_call
  add_and_publish key sub msg_json =
      then_call (R.call (sadd sub key))
        (λ added. then_call (R.call (publish sub msg_json)) (λ sent w. (ok (codes "OK"), w)))

  unfoldable pub after_set : Text → Text → Text → Bool → W → Result Text × W
  unfolding add_and_publish
  after_set key sub msg_json true = add_and_publish key sub msg_json
  after_set key sub msg_json false = λ w. (ok (codes "NO"), w)

  -- `setAndPublishText`, on the two keys and the two arguments
  unfoldable pub set_and_publish : Text → Text → Text → Text → W → Result Text × W
  unfolding then_call after_set
  set_and_publish key sub obj_json msg_json =
      then_call (R.set_nx key obj_json) (after_set key sub msg_json)

-- `json.Marshal` of an object
abbrev pub object_json : {O D : Type 0} → Object O D → O → Result Text
object_json I obj = elim (I.to_json obj) [ ok j ↦ ok (encode j) | err e ↦ err e ]

-- The error of `redis.String`, and of a script that has refused.
unfoldable pub script_error : Text → Result Text → Error
script_error key (err e) = some e
script_error key (ok val) =
    if val == codes "NO"
    then some (
        codes "synk.redisNewObject failed to create object. Redis key '"
        ++ (key ++ codes "' already exists"))
    else none

-- The object has kept its subscription.
abbrev pub simple_commands : Text → Text → Text → Text → Text → List Command
simple_commands psk nsk key obj_json msg_json =
    sadd nsk key ∷ set key obj_json ∷ publish psk msg_json ∷ []

-- It has changed it.
abbrev pub moved_commands : Text → Text → Text → Text → Text → Text → List Command
moved_commands psk nsk key obj_json msg_json add_json =
    srem psk key
    ∷ sadd nsk key
    ∷ set key obj_json
    ∷ publish psk msg_json
    ∷ publish nsk add_json
    ∷ []

module _ {O W : Type 0} (R : Redis W) where
  -- MULTI, the commands, EXEC
  unfoldable pub exec : List Command → Session O W → Error × Session O W
  exec cs s = let (e, w) = R.transact cs s.world in (e, record s { world = w })

module _ {O D W : Type 0} (I : Object O D) (R : Redis W) where
  -- The rest of `redisNewObject`, after the object is ready.
  unfoldable pub store_new : Text → Text → Text → Session O W → Error × Session O W
  unfolding set_and_publish script_error
  store_new type_key sub_key key s =
      let obj = s.object in
      let msg : AddMsg D = record {
        state = I.state obj;
        id = I.tag_get_id obj;
        s_key = sub_key;
        ps_key = [];
        version = I.version obj;
        type = type_key;
      } in
      elim (marshal_add I.marshal msg) [
        | err e ↦ (some (codes "redisNewObject failed to convert diff to json"), s)
        | ok msg_json ↦ elim (object_json I obj) [
          | err e ↦ (some (codes "redisNewObject failed to convert object to json"), s)
          | ok redis_json ↦
              let (val, w) = R.eval (set_and_publish R key sub_key redis_json msg_json) s.world in
              (script_error key val, record s { world = w })
        ]
      ]

  unfoldable pub redis_new_object : (ℕ → ℕ) → Session O W → Error × Session O W
  unfolding redis_key store_new
  redis_new_object draws s =
      let sub_key = I.get_sub_key s.object in
      let type_key = I.type_key s.object in
      let key = redis_key I s.object in
      let initialised = run_on_create I (I.tag_init type_key draws s.object) in
      let resolved = (I.resolve initialised).1 in
      let tagged = I.tag_set_sub (I.get_sub_key resolved) resolved in
      store_new type_key sub_key key (record s { object = tagged })

  -- What follows the two marshalled texts in `redisModObject`.
  unfoldable pub store_mod :
      Text → Text → Text → Text → Text → Text → Session O W → Error × Session O W
  unfolding exec with_header
  store_mod psk nsk id key msg_json obj_json s =
      let amsg : AddMsg D = record {
        state = I.state s.object;
        id = id;
        s_key = nsk;
        ps_key = psk;
        version = I.version s.object;
        type = I.type_key s.object;
      } in
      if psk == nsk
      then exec R (simple_commands psk nsk key obj_json msg_json) s
      else elim (marshal_add I.marshal amsg) [
        | err e ↦ (some (codes "redisModObject failed to convert full state to JSON"), s)
        | ok add_json ↦
            exec R (moved_commands psk nsk key obj_json msg_json (with_header psk add_json)) s
      ]

  unfoldable pub redis_mod_object : Session O W → Error × Session O W
  unfolding redis_key store_mod
  redis_mod_object s =
      let psk = I.get_prev_sub_key s.object in
      let nsk = I.get_sub_key s.object in
      let id = I.tag_get_id s.object in
      let key = redis_key I s.object in
      let (diff, obj) = I.resolve s.object in
      let resolved = record s { object = obj } in
      let msg : ModMsg D = record {
        diff = diff;
        id = id;
        version = I.version obj;
        s_key = psk;
        ns_key = if not (psk == nsk) then nsk else [];
      } in
      elim (marshal_mod I.marshal msg) [
        | err e ↦ (some (codes "redisModObject failed to convert modMsg to JSON"), resolved)
        | ok msg_json ↦ elim (object_json I obj) [
          | err e ↦ (some (codes "redisModObject failed to convert object to JSON"), resolved)
          | ok obj_json ↦ store_mod psk nsk id key msg_json obj_json resolved
        ]
      ]

  unfoldable pub redis_del_object : Session O W → Error × Session O W
  unfolding redis_key exec
  redis_del_object s =
      let msg : RemMsg = record {
        s_key = I.get_prev_sub_key s.object;
        id = I.tag_get_id s.object;
        type = I.type_key s.object;
      } in
      let key = redis_key I s.object in
      elim (marshal_rem msg) [
        | err e ↦ (some (codes "synk.redisDelObj failed to convert msg to json: " ++ e), s)
        | ok rem_json ↦ exec R (srem msg.s_key key ∷ del key ∷ publish msg.s_key rem_json ∷ []) s
      ]

-- What `redisHandleMessage` tells apart, and the type of any other message
pub data ObjectMessage : Type 0 where
  mod_obj new_obj del_obj : ObjectMessage
  other : Text → ObjectMessage

module _ {O D W : Type 0} (I : Object O D) (R : Redis W) where
  unfoldable pub redis_handle_message : (ℕ → ℕ) → ObjectMessage → Session O W → Error × Session O W
  unfolding redis_mod_object redis_new_object redis_del_object
  redis_handle_message draws mod_obj s = redis_mod_object I R s
  redis_handle_message draws new_obj s = redis_new_object I R draws s
  redis_handle_message draws del_obj s = redis_del_object I R s
  redis_handle_message draws (other type) s = (some (codes "Unknown Message Type: " ++ type), s)
