-- ===== src/Tests/Mongo.antt =====
-- The methods of MongoSynk on concrete humans.
use synk.Base.{ℕ, Text, codes, Option, none, [], ◌∷◌, text_eq, ◌≡◌, ◌≢◌, refl, arith}
use synk.Base.Number.{itoa}
use synk.Result.{returns}
use synk.Service.Memory.{memory-IsService, memory, lookup}
use synk.Mongo.{prepare, create, modify, delete}
use synk.Mongo.Create.{Created, create-Created}
use synk.Mongo.Delete.{Deleted, delete-Deleted}
use synk.Mongo.Notices.{Modified}
use synk.Mongo.Modify.{modify-Modified}
use synk.Stest.Human.{new_human, empty_diff, get_sub_key, get_prev_sub_key}
use synk.Stest.Human.Methods.{human_object, human_object-IsObject}
use synk.Tests.{
  human_id, human_sub, services, human_bson, moving, world, moving_session, recruit,
  recruit_session,
}

moving_key : get_sub_key moving ≡ codes "m:1|0"
unfolding get_sub_key itoa
moving_key = refl

known : services.document (human_id moving) world ≢ none
unfolding memory lookup text_eq
known = ground arith

pub modifies : (modify human_object services human_bson moving_session).0 ≡ returns none
unfolding modify text_eq get_sub_key get_prev_sub_key itoa synk.Mongo.modify_moved
    synk.Mongo.checked memory synk.Tag.tag_get_id synk.Tag.tag_set_sub synk.Stest.Human.resolve
    synk.Mongo.send_mod synk.Wire.Message.marshal_mod synk.Mongo.send_add_from
    synk.Wire.Message.marshal_add
modifies = refl

modify_log :
    services.published (modify human_object services human_bson moving_session).1.world
    ≡ (
      codes "m:0|0",
      codes
          "{\"method\":\"mod\",\"diff\":{\"cx\":1},\"id\":\"hero!\",\"v\":2,\"sKey\":\"m:0|0\",\"nsKey\":\"m:1|0\"}",
    )
      ∷ (
        codes "m:1|0",
        codes
            "from m:0|0{\"method\":\"add\",\"state\":{\"x\":1,\"y\":2,\"cy\":0,\"cx\":1,\"ci\":3,\"mapID\":\"m\"},\"id\":\"hero!\",\"sKey\":\"m:1|0\",\"psKey\":\"m:0|0\",\"v\":2,\"t\":\"c:h\"}",
      )
      ∷ []
unfolding modify text_eq get_sub_key get_prev_sub_key itoa synk.Mongo.modify_moved
    synk.Mongo.checked memory synk.Tag.tag_get_id synk.Tag.tag_set_sub synk.Stest.Human.resolve
    synk.Mongo.send_mod synk.Wire.Message.marshal_mod synk.Mongo.send_add_from
    synk.Wire.Message.marshal_add synk.Stest.Human.marshal_diff synk.Mongo.with_header
    synk.Tag.version synk.Stest.Human.state synk.Stest.Human.type_key
modify_log = refl

modify-Modified_example :
    (◌≡◌ {A = Option Text} none none)
    × Modified human_object services human_bson moving_session
        (modify human_object services human_bson moving_session).1
modify-Modified_example =
    modify-Modified human_object services human_bson human_object-IsObject
      (memory-IsService human_id human_sub) moving_session none modifies

abbrev draws : ℕ → ℕ
draws i = i

free :
    services.document
      (services.id_of (human_bson.to_doc (prepare human_object draws recruit).1))
      world
    ≡ none
unfolding memory lookup text_eq prepare synk.Tag.tag_set_sub synk.Stest.Human.resolve
    synk.Tag.tag_init synk.Id.new_id
free = refl

creates : (create human_object services human_bson draws recruit_session).0 ≡ returns none
unfolding create synk.Mongo.checked memory text_eq prepare synk.Tag.tag_set_sub
    synk.Stest.Human.resolve synk.Tag.tag_init synk.Id.new_id synk.Mongo.send
    synk.Wire.Message.marshal_add
creates = refl

create-Created_example :
    (◌≡◌ {A = Option Text} none none)
    × Created human_object services human_bson recruit_session
        (create human_object services human_bson draws recruit_session).1
create-Created_example =
    create-Created human_object services human_bson human_object-IsObject
      (memory-IsService human_id human_sub) draws recruit_session none creates

deletes : (delete human_object services moving_session).0 ≡ returns none
unfolding delete synk.Mongo.checked memory text_eq synk.Tag.tag_get_id synk.Mongo.send_rem
    synk.Wire.Message.marshal_rem
deletes = refl

delete-Deleted_example :
    (◌≡◌ {A = Option Text} none none)
    × Deleted human_object services moving_session (delete human_object services moving_session).1
delete-Deleted_example =
    delete-Deleted human_object services (memory-IsService human_id human_sub) moving_session none
      deletes
