-- ===== src/Tests/RedisLoad.antt =====
-- Loading concrete humans from Redis.
use synk.Base.{
  Text, codes, Option, none, some, List, [], ◌∷◌, ◌++◌, All, ◌≡◌, ◌≢◌, refl, ◌↔◌, ◌⊎◌, arith,
}
use mathlib.Core.List.{filter_map}
use synk.Result.{value, ok, err, error_of}
use synk.RedisSynk.Load.{
  request_loop-filter_map, Source, type_of_key, read_item, request_loop, request_objects,
  request_loop-last,
}
use synk.Stest.Human.{Human}
use synk.Tests.{human_creator, hero}

-- A server with two keys, the first of which has no value.
abbrev source : Source Human
source = record {
  sunion = λ ks. ok (codes "c:h:ghost" ∷ codes "c:h:hero!" ∷ []);
  mget = λ ids. ok (none ∷ some (codes "{}") ∷ []);
  container = human_creator;
  unmarshal =
      λ val o. elim val [ none ↦ err (codes "unexpected end of JSON input") | some t ↦ ok hero ];
}

abbrev ghost : Text × Option Text
ghost = (codes "c:h:ghost", none)

abbrev present : Text × Option Text
present = (codes "c:h:hero!", some (codes "{}"))

-- The missing value is no error, as it is not the last.
load_test : request_objects source (codes "m:0|0" ∷ []) ≡ (hero ∷ [], none)
unfolding request_objects synk.Base.nat_eq synk.Base.text_eq type_of_key synk.Base.Index.last_index
load_test = refl

known :
    (item : Text × Option Text)
    → type_of_key source item.0 ≡ codes "c:h"
    → source.container (type_of_key source item.0) ≢ none
known item e h = ground arith

typed : (type_of_key source ghost.0 ≡ codes "c:h") × (type_of_key source present.0 ≡ codes "c:h")
unfolding type_of_key synk.Base.Index.last_index synk.Base.nat_eq
typed = (refl, refl)

request_loop-last_example :
    (request_loop source [] none ((ghost ∷ []) ++ present ∷ [])).1
    ≡ error_of (read_item source present)
request_loop-last_example =
    request_loop-last source [] none (ghost ∷ []) present (known ghost typed.0, tt)

request_loop-filter_map_example :
    (request_loop source [] none (ghost ∷ present ∷ [])).0
    ≡ [] ++ filter_map (λ item. value (read_item source item)) (ghost ∷ present ∷ [])
request_loop-filter_map_example =
    request_loop-filter_map source [] none (ghost ∷ present ∷ [])
      (known ghost typed.0, (known present typed.1, tt))
