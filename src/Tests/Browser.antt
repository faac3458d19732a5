-- ===== src/Tests/Browser.antt =====
-- RedisSynk as a Mutator, and the texts that a browser reads, on a concrete human.
use synk.Base.{
  subst, ℕ, Text, codes, ℤ, pos, Bool, true, false, none, some, Option, List, [], ◌∷◌, ◌++◌, ◌≡◌,
  refl, ◌<◌, ◌^◌, text_eq, arith,
}
use synk.Result.{ok_inj, ok, returns}
use synk.Mongo.{Session}
use synk.Stest.Human.{Human, empty_diff, get_sub_key, get_prev_sub_key, state}
use synk.Stest.Human.Methods.{human_object, human_object-IsObject}
use synk.Replica.{Notice, changed as changed_notice, text_of}
use synk.Replica.Unique.{IsUnicodeNotice, text_of-injective}
use synk.Wire.Json.{obj, num, field, end}
use synk.Wire.Json.Unique.{valid}
use synk.Stest.Human.{HumanDiff}
use synk.Stest.Human.Wire.{human-IsFaithful}
use synk.Base.{Option}
use synk.Replica.Mutator.{modifies, perform, Told}
use synk.Redis.{View}
use synk.Redis.Memory.{empty_view, memory as redis_memory, memory-IsRedis as redis_memory-IsRedis}
use synk.Replica.Redis.{Fits, Tagged, redis_mutator, redis_tells}
use synk.Tests.Replica.{key, hero_id, strolling, told}

-- The same steps with RedisSynk
abbrev redis_session : Session Human View
redis_session = record { object = strolling; world = empty_view }

redis-Fits : Fits human_object redis_memory modifies redis_session
unfolding redis_memory
redis-Fits = (refl, refl)

redis_returns :
    (perform (redis_mutator human_object redis_memory) modifies redis_session).0 ≡ returns none
unfolding redis_memory synk.RedisSynk.Methods.modify synk.Wire.Message.marshal_mod get_prev_sub_key
    get_sub_key
redis_returns = refl

redis_tells_example :
    (out : List (Text × Text)) × ((redis_memory.view
        (perform (redis_mutator human_object redis_memory) modifies redis_session).1.world).log
      ≡ [] ++ out)
    × Told human_object modifies strolling
        (perform (redis_mutator human_object redis_memory) modifies redis_session).1.object
        out
    × Tagged human_object redis_memory modifies strolling
        (perform (redis_mutator human_object redis_memory) modifies redis_session).1.object
unfolding redis_memory
redis_tells_example =
    redis_tells human_object redis_memory human_object-IsObject redis_memory-IsRedis modifies
      redis_session redis-Fits redis_returns

-- The message that the viewer is told, as a value
abbrev told_notice : Notice HumanDiff
told_notice = changed_notice (record {
  diff = record empty_diff { x = some (pos 5) };
  id = hero_id;
  version = 2;
  s_key = key;
  ns_key = [];
})

told_text : text_of human_object.marshal told_notice ≡ ok told
unfolding synk.Wire.Message.marshal_mod synk.Stest.Human.marshal_diff synk.Base.Number.itoa
told_text = refl

told_IsUnicode : IsUnicodeNotice human_object.marshal told_notice
unfolding synk.Wire.Json.Unique.valid synk.Stest.Human.marshal_diff
told_IsUnicode = record {
  texts = refl;
  json = λ j h.
      subst (λ x. valid x ≡ true) (ok_inj (obj (field (codes "x") (num (pos 5)) end)) j h) refl;
}

text_of-injective_example : told_notice ≡ told_notice
text_of-injective_example =
    text_of-injective human_object.marshal human-IsFaithful told_notice told_notice told
      told_IsUnicode told_IsUnicode told_text told_text
