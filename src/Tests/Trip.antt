-- ===== src/Tests/Trip.antt =====
-- Loading a human that has been stored in Redis.
use synk.Base.{
  Text, true, false, some, none, List, [], codes, Bool, if◌then◌else◌, ◌∷◌, ◌≡◌, refl, sym, subst,
  inl, inr, map, arith, text_eq,
}
use synk.Base.Index.{Lacks}
use synk.Result.{ok, err, ok_inj}
use synk.Service.{In}
use synk.Redis.{View}
use synk.Redis.Memory.{memory, memory-IsRedis, empty_view}
use synk.RedisSynk.{redis_key, object_json, redis_mod_object}
use synk.RedisSynk.Load.{Source, request_objects}
use synk.RedisSynk.Modify.{redis_mod_object-Modified}
use synk.RedisSynk.Trip.{IsSource, Found, request_objects-redis_mod_object}
use synk.Stest.Human.{Human, new_human}
use synk.Stest.Human.Methods.{human_object, human_object-IsObject}
use synk.Tests.{hero, moving}
use synk.Tests.Redis.{session, modifies, nothing}

abbrev stored : View
stored = (redis_mod_object human_object memory (session moving)).1.world

abbrev hero_key : Text
hero_key = redis_key human_object moving

-- Whether no key of the list holds a string
sets_only : List Text → Bool
sets_only [] = true
sets_only (k ∷ ks) =
    let rest = sets_only ks in elim ((memory.view stored).string k) [ none ↦ rest | some v ↦ false ]

string-sets_only :
    (ks : List Text) (k : Text)
    → In k ks
    → sets_only ks ≡ true
    → (memory.view stored).string k ≡ none
unfolding sets_only
string-sets_only [] k at h = absurd at
string-sets_only (j ∷ ks) k (inl same) h = ground arith
string-sets_only (j ∷ ks) k (inr at) h = string-sets_only ks k at (ground arith)

-- A server that has one key
abbrev source : Source Human
source = record {
  sunion = λ ks. if sets_only ks then ok (hero_key ∷ []) else err (codes "WRONGTYPE");
  mget = λ ids. ok (map (memory.view stored).string ids);
  container = λ t. some new_human;
  unmarshal = λ val o. ok hero;
}

no_member : (k m : Text) → (memory.view empty_view).member k m ≡ false
unfolding memory
no_member k m = refl

-- The server has no other member of a set.
done : (k m : Text) → (memory.view stored).member k m ≡ true → hero_key ≡ m
done k m h =
    let change =
      redis_mod_object-Modified human_object memory human_object-IsObject memory-IsRedis
        (session moving) (nothing (human_object.get_prev_sub_key moving))
        (nothing (human_object.get_sub_key moving)) modifies in
    elim (text_eq.dec m hero_key) [
      | yes same ↦ sym same
      | no n ↦ absurd (ground (arith, change.stored.member k m, no_member k m))
    ]

source-IsSource : IsSource source (memory.view stored)
source-IsSource = record {
  in-sunion = λ ks ids united k id at member.
      subst (In id) (ok_inj (hero_key ∷ []) ids (ground arith)) (inl (done k id member));
  string-sunion = λ ks ids united k at. string-sets_only ks k at (ground arith);
  mget-map = λ ids vals got. ok_inj vals (map (memory.view stored).string ids) (sym got);
}

moving_id : Lacks b':' (human_object.tag_get_id moving)
unfolding synk.Tag.tag_get_id
moving_id = ground arith

request_objects-redis_mod_object_example :
    (j : Text) × (object_json human_object
        (redis_mod_object human_object memory (session moving)).1.object
      ≡ ok j)
    × Found human_object memory source moving j
        (request_objects source (human_object.get_sub_key moving ∷ [])).0
unfolding sets_only memory redis_mod_object synk.Wire.Message.marshal_mod
    synk.Stest.Human.get_prev_sub_key synk.Stest.Human.get_sub_key synk.Wire.Message.marshal_add
    synk.Stest.Human.type_key
request_objects-redis_mod_object_example =
    request_objects-redis_mod_object human_object memory source human_object-IsObject memory-IsRedis
      (λ t h. ground arith) (session moving) (hero_key ∷ [])
      (map (memory.view stored).string (hero_key ∷ []))
      (nothing (human_object.get_prev_sub_key moving)) (nothing (human_object.get_sub_key moving))
      moving_id modifies
      (record { container = new_human; makes = refl; reads = λ j h. (hero, refl) }) source-IsSource
      refl refl
