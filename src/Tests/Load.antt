-- ===== src/Tests/Load.antt =====
-- Load on concrete humans.
use synk.Base.{ℕ, Text, codes, none, some, List, [], ◌∷◌, ◌≡◌, refl, true, ◌↔◌, text_eq, arith}
use synk.Result.{Result, ok, returns}
use synk.Service.{In, is_in}
use synk.Service.Memory.{memory-IsService, memory}
use synk.Mongo.{Session, create, load, load_one}
use synk.Mongo.Load.{IsBson, IsSaved, load_lem, load-create}
use synk.Stest.Human.{Human, empty_diff, get_sub_key}
use synk.Stest.Human.Methods.{human_object, human_object-IsObject}
use synk.Tests.{
  World, human_id, human_sub, services, human_bson, human_creator, hero, world, recruit_session,
}

-- The humans whose tag holds their type
abbrev pub Typed : Human → Type 0
Typed h = h.tag.tag_type ≡ codes "c:h"

reads :
    (o : Human)
    → Typed o
    → load_one services human_bson human_creator (human_bson.to_doc o)
      ≡ some (record o { diff = empty_diff })
unfolding load_one
reads o typed = ground arith

pub human_bson-IsBson : IsBson human_object services human_bson human_creator Typed
unfolding synk.Tag.tag_get_id memory synk.Stest.Human.state synk.Stest.Human.get_prev_sub_key
    get_sub_key synk.Stest.Human.changed
human_bson-IsBson = record {
  id_of-to_doc = λ o. refl;
  sub_of-to_doc = λ o. refl;
  load_one-to_doc = λ o typed. (
    record o { diff = empty_diff },
    reads o typed,
    record { id = refl; state = refl; version = refl; sub_key = refl; resolved = refl },
  );
}

keys : List Text
keys = codes "m:0|0" ∷ []

abbrev found : Result (List Human)
found = ok (hero ∷ [])

loads : (load services human_bson human_creator keys world).0 ≡ returns found
unfolding load keys memory text_eq load_one
loads = refl

load_lem_example :
    (os : List Human) × (found ≡ ok os)
    × ((o : Human)
        → In o os ↔ (
            (d : Human) × (services.document (services.id_of d) world ≡ some d)
            × (is_in (services.sub_of d) keys ≡ true)
            × (load_one services human_bson human_creator d ≡ some o)))
load_lem_example =
    load_lem services human_bson human_creator (memory-IsService human_id human_sub) keys world
      found loads

abbrev draws : ℕ → ℕ
draws i = i

creates : (create human_object services human_bson draws recruit_session).0 ≡ returns none
unfolding create synk.Mongo.checked memory text_eq synk.Mongo.prepare synk.Tag.tag_set_sub
    synk.Stest.Human.resolve synk.Tag.tag_init synk.Id.new_id synk.Mongo.send
    synk.Wire.Message.marshal_add
creates = refl

typed : Typed (create human_object services human_bson draws recruit_session).1.object
unfolding create synk.Mongo.checked memory text_eq synk.Mongo.prepare synk.Tag.tag_set_sub
    synk.Stest.Human.resolve synk.Tag.tag_init synk.Id.new_id synk.Mongo.send
    synk.Wire.Message.marshal_add synk.Stest.Human.type_key
typed = refl

abbrev after : Session Human World
after = (create human_object services human_bson draws recruit_session).1

abbrev both : Result (List Human)
both = ok (record after.object { diff = empty_diff } ∷ hero ∷ [])

loads_both :
    (load services human_bson human_creator
      (human_object.get_sub_key after.object ∷ [])
      after.world).0
    ≡ returns both
unfolding create load memory synk.Mongo.checked text_eq synk.Mongo.prepare synk.Tag.tag_set_sub
    synk.Stest.Human.resolve synk.Tag.tag_init synk.Id.new_id synk.Mongo.send
    synk.Wire.Message.marshal_add get_sub_key load_one synk.Stest.Human.type_key
loads_both = refl

load-create_example :
    (os : List Human) × (p : Human) × (both ≡ ok os) × In p os × IsSaved human_object after.object p
load-create_example =
    load-create human_object services human_bson human_creator Typed
      (memory-IsService human_id human_sub) human_bson-IsBson human_object-IsObject draws
      recruit_session both creates typed loads_both
