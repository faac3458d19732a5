-- ===== src/Tests/Redis.antt =====
-- RedisSynk on concrete humans.
use synk.Base.{ℕ, ◌+◌, Text, codes, Option, none, some, List, [], ◌∷◌, ◌++◌, ◌≡◌, ◌≢◌, refl, arith}
use synk.Base.Index.{Lacks}
use synk.Result.{ok}
use synk.Wire.Message.{marshal_rem}
use synk.Mongo.{Session}
use synk.Redis.{View}
use synk.Redis.Memory.{memory, memory-IsRedis, empty_view}
use synk.RedisSynk.{redis_key, redis_new_object, redis_mod_object, redis_del_object}
use synk.RedisSynk.Store.{Modified}
use synk.RedisSynk.Modify.{redis_mod_object-Modified}
use synk.RedisSynk.Delete.{Gone, redis_del_object-Gone}
use synk.RedisSynk.Create.{redis_new_object_twice}
use synk.Stest.Human.{Human, new_human, get_prev_sub_key, get_sub_key}
use synk.Stest.Human.Methods.{human_object, human_object-IsObject}
use synk.Tests.{hero, moving, recruit}

abbrev pub session : Human → Session Human View
session o = record { object = o; world = empty_view }

pub hero_id : Lacks b':' (human_object.tag_get_id hero)
unfolding synk.Tag.tag_get_id
hero_id = ground arith

pub modifies : (redis_mod_object human_object memory (session moving)).0 ≡ none
unfolding redis_mod_object synk.Wire.Message.marshal_mod get_prev_sub_key get_sub_key
    synk.Wire.Message.marshal_add memory
modifies = refl

pub nothing : (k : Text) → (memory.view empty_view).string k ≡ none
unfolding memory
nothing k = refl

redis_mod_object-Modified_example :
    Modified human_object memory
      (session moving)
      (redis_mod_object human_object memory (session moving)).1
redis_mod_object-Modified_example =
    redis_mod_object-Modified human_object memory human_object-IsObject memory-IsRedis
      (session moving) (nothing (human_object.get_prev_sub_key moving))
      (nothing (human_object.get_sub_key moving)) modifies

deletes : (redis_del_object human_object memory (session hero)).0 ≡ none
unfolding redis_del_object marshal_rem memory
deletes = refl

redis_del_object-Gone_example :
    let t = (redis_del_object human_object memory (session hero)).1 in
    (t.object ≡ hero)
    × ((bytes : Text) × (marshal_rem (record {
      s_key = human_object.get_prev_sub_key hero;
      id = human_object.tag_get_id hero;
      type = human_object.type_key hero;
    })
          ≡ ok bytes)
        × Gone
            (human_object.get_prev_sub_key hero)
            (redis_key human_object hero)
            bytes
            (memory.view empty_view)
            (memory.view t.world))
redis_del_object-Gone_example =
    redis_del_object-Gone human_object memory memory-IsRedis (session hero)
      (nothing (human_object.get_prev_sub_key hero)) deletes

abbrev draws : ℕ → ℕ
draws i = i

creates : (redis_new_object human_object memory draws (session recruit)).0 ≡ none
unfolding redis_new_object synk.Wire.Message.marshal_add memory
creates = refl

apart : human_object.get_sub_key recruit ≢ redis_key human_object recruit
unfolding get_sub_key redis_key synk.Stest.Human.get_cx synk.Stest.Human.get_cy
    synk.Stest.Human.get_map_id synk.Stest.Human.type_key synk.Base.Number.itoa synk.Tag.tag_get_id
apart = λ e. ground arith

there :
    let w = (redis_new_object human_object memory draws (session recruit)).1.world in
    (memory.view w).string (human_object.get_sub_key recruit) ≡ none
unfolding memory redis_new_object synk.Wire.Message.marshal_add get_sub_key
    synk.Stest.Human.type_key
there = refl

redis_new_object_twice_example :
    let w = (redis_new_object human_object memory draws (session recruit)).1.world in
    (redis_new_object human_object memory (λ i. i + 1) (record { object = recruit; world = w })).0
    ≢ none
unfolding synk.Tag.tag_get_id
redis_new_object_twice_example =
    redis_new_object_twice human_object memory memory-IsRedis draws (λ i. i + 1) (session recruit)
      recruit (nothing (human_object.get_sub_key recruit)) apart creates refl refl refl there apart
