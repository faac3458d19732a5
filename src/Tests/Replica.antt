-- ===== src/Tests/Replica.antt =====
-- A browser's copy of a concrete human.
use synk.Base.{
  ℕ, Text, codes, ℤ, pos, Bool, true, false, none, some, Option, List, [], ◌∷◌, ◌++◌, ◌≡◌, refl,
  ◌<◌, ◌^◌, text_eq, arith,
}
use synk.Base.Dict
use synk.Base.Index.{Lacks}
use synk.Result.{ok, returns}
use synk.Service.{is_in}
use synk.Service.Memory.{memory-IsService, memory-IsReliable, memory}
use synk.Mongo.{Session, modify, load, load_one}
use synk.Stest.Human.{Human, empty_diff, get_sub_key, get_prev_sub_key, state}
use synk.Stest.Human.Methods.{human_object, human_object-IsObject}
use synk.Client.{SynkClient}
use synk.Client.Delivery.{deliver}
use synk.Stest.Human.{HumanDiff}
use synk.Base.{Option}
use synk.Replica.Mutator.{Told, fresh, Mutator, modifies, fresh}
use synk.Replica.Delivered.{IsPlain}
use synk.Replica.History.{call, Scene, Edited, Step, edits, calls, writes, History, now, later}
use synk.Replica.Copies.{copy_in, IsMirrored}
use synk.Replica.Mirrored.{History-IsMirrored}
use synk.Replica.Versions.{modified, Kept}
use synk.Replica.Mongo.{mongo_mutator, mongo_mutator-IsMutator}
use synk.Replica.Human.{human_script, human_script-IsScript}
use synk.Replica.Stored.{StoredIn}
use synk.Replica.Progress.{call_delivered}
use synk.Replica.Subscribe.{shows, subscribes-IsMirrored}
use synk.Tests.{World, human_id, human_sub, services, human_bson, human_creator, hero, world}
use synk.Tests.Client.{viewer}
use synk.Tests.Load.{Typed, human_bson-IsBson}

abbrev pub key : Text
key = codes "m:0|0"

abbrev pub hero_id : Text
hero_id = codes "hero!"

-- The hero is about to take some steps.
abbrev pub strolling : Human
strolling = record hero { diff = record empty_diff { x = some (pos 5) } }

abbrev mutator : Mutator Human World
mutator = mongo_mutator human_object services human_bson Typed

abbrev before : Scene Human World
before = record { object = hero; live = true; world = world; client = viewer key; sent = [] }

abbrev edited : Scene Human World
edited = record before { object = strolling }

abbrev changed : Session Human World
changed = (modify human_object services human_bson (record { object = strolling; world = world })).1

-- The message that tells the viewer
abbrev pub told : Text
told = codes "{\"method\":\"mod\",\"diff\":{\"x\":5},\"id\":\"hero!\",\"v\":2,\"sKey\":\"m:0|0\"}"

abbrev waiting : SynkClient
waiting = record (viewer key) { to_web_socket = told ∷ [] }

abbrev after : Scene Human World
after = record {
  object = changed.object;
  live = true;
  world = changed.world;
  client = waiting;
  sent = [];
}

hero-Edited : Edited human_object hero strolling
unfolding state get_prev_sub_key synk.Tag.tag_get_id synk.Tag.version
hero-Edited = record {
  id = refl;
  state = refl;
  version = refl;
  prev_sub_key = refl;
  tag_sub = refl;
}

returns_nil :
    (modify human_object services human_bson (record { object = strolling; world = world })).0
    ≡ returns none
unfolding modify text_eq get_sub_key get_prev_sub_key synk.Base.Number.itoa synk.Mongo.modify_simple
    synk.Mongo.checked memory synk.Tag.tag_get_id synk.Tag.tag_set_sub synk.Stest.Human.resolve
    synk.Mongo.send_mod synk.Wire.Message.marshal_mod
returns_nil = refl

delivered : deliver (fresh mutator world changed.world) (viewer key) ≡ some waiting
unfolding modify text_eq get_sub_key get_prev_sub_key synk.Base.Number.itoa synk.Mongo.modify_simple
    synk.Mongo.checked memory synk.Tag.tag_get_id synk.Tag.tag_set_sub synk.Stest.Human.resolve
    synk.Mongo.send_mod synk.Wire.Message.marshal_mod deliver Dict.contains synk.Client.receive
    synk.Base.Index.index synk.Client.enqueue synk.Stest.Human.marshal_diff synk.Tag.version
delivered = refl

no_brace : IsPlain human_object strolling
unfolding get_prev_sub_key get_sub_key synk.Base.Number.itoa
no_brace = record { no_brace = ground arith; named = ground arith }

typed : Typed changed.object
unfolding memory modify text_eq get_sub_key get_prev_sub_key synk.Base.Number.itoa
    synk.Mongo.modify_simple synk.Mongo.checked synk.Tag.tag_get_id synk.Stest.Human.resolve
    synk.Mongo.send_mod synk.Wire.Message.marshal_mod
typed = refl

stroll : Step human_object mutator hero_id edited after
stroll = calls modifies waiting typed no_brace refl returns_nil delivered refl

history : History human_object mutator hero_id before after
history =
    later before edited after (edits strolling refl hero-Edited refl)
      (later edited after after stroll (now after))

mirrored_before :
    IsMirrored human_object human_script hero_id
      (copy_in human_object human_script hero_id before.client.subscriptions true hero)
      before
unfolding synk.Tag.tag_get_id
mirrored_before = record { same = refl; read = refl }

History-IsMirrored_example :
    IsMirrored human_object human_script hero_id
      (copy_in human_object human_script hero_id before.client.subscriptions true hero)
      after
History-IsMirrored_example =
    History-IsMirrored human_object human_script hero_id human_object-IsObject human_script-IsScript
      mutator
      (mongo_mutator-IsMutator human_object services human_bson Typed human_object-IsObject
        (memory-IsService human_id human_sub))
      _ before after history mirrored_before

few : modified human_object mutator hero_id history < 2 ^ 64
unfolding history stroll
few = omega arith

kept : Kept human_object mutator hero_id history
unfolding history stroll
kept = (tt, (tt, tt))

stored : StoredIn human_object services human_bson Typed hero_id before
unfolding memory synk.Tag.tag_get_id get_prev_sub_key synk.Base.Number.itoa
    synk.Service.Memory.lookup text_eq
stored = record {
  saved = hero;
  stored = refl;
  typed = refl;
  same = refl;
  saved_id = refl;
  state = refl;
  version = refl;
  saved_sub = refl;
  tag_sub = refl;
}

abbrev loaded : List Human
loaded = record changed.object { diff = empty_diff } ∷ []

loads : (load services human_bson human_creator (key ∷ []) changed.world).0 ≡ returns (ok loaded)
unfolding load load_one memory modify text_eq get_sub_key get_prev_sub_key synk.Base.Number.itoa
    synk.Mongo.modify_simple synk.Mongo.checked synk.Tag.tag_get_id synk.Stest.Human.resolve
    synk.Mongo.send_mod synk.Wire.Message.marshal_mod
loads = refl

asked : (k : Text) → is_in k (key ∷ []) ≡ Dict.contains k ((key, true) ∷ [])
unfolding Dict.contains synk.Base.Dict.lookup
asked k = ground arith

named :
    (d : Human) (o : Human)
    → load_one services human_bson human_creator d ≡ some o
    → human_object.tag_get_id o ≡ services.id_of d
unfolding load_one synk.Tag.tag_get_id memory
named d o h = ground arith

abbrev shown : Scene Human World
shown = shows human_object loaded after

abbrev written : Scene Human World
written = record shown { client = viewer key; sent = shown.sent ++ told ∷ [] }

subscribes-IsMirrored_example : IsMirrored human_object human_script hero_id none written
subscribes-IsMirrored_example =
    subscribes-IsMirrored human_object services human_bson human_creator Typed hero_id
      human_bson-IsBson named human_script (λ d. tt) (key ∷ []) ((key, true) ∷ []) asked
      human_object-IsObject (memory-IsService human_id human_sub) human_script-IsScript before after
      history kept few stored refl refl refl refl loaded loads written
      (later shown written written (writes told [] refl refl) (now written))

stored_edited : StoredIn human_object services human_bson Typed hero_id edited
unfolding memory synk.Tag.tag_get_id get_prev_sub_key synk.Base.Number.itoa
    synk.Service.Memory.lookup text_eq state synk.Tag.version
stored_edited = record {
  saved = hero;
  stored = refl;
  typed = refl;
  same = refl;
  saved_id = refl;
  state = refl;
  version = refl;
  saved_sub = refl;
  tag_sub = refl;
}

call_delivered_example :
    let r = call human_object mutator hero_id modifies edited.object edited.world in
    (r.0 ≡ returns none)
    × Told human_object modifies edited.object r.1.object (fresh mutator edited.world r.1.world)
    × ((next : SynkClient) × (deliver (fresh mutator edited.world r.1.world) edited.client
          ≡ some next))
unfolding synk.Tag.tag_get_id memory
call_delivered_example =
    call_delivered human_object services human_bson Typed hero_id human_object-IsObject
      (memory-IsService human_id human_sub) (memory-IsReliable human_id human_sub) (λ d. tt)
      (λ o. refl) modifies edited (omega arith) stored_edited no_brace tt typed refl
