-- ===== src/Tests.antt =====
-- The concrete objects and services of the tests: humans in a service in memory, whose documents
-- are the humans without their pending diffs.
pub mod Mongo
pub mod Load
pub mod Stest
pub mod Redis
pub mod RedisLoad
pub mod Inbox
pub mod Client
pub mod MainLoop
pub mod Server
pub mod Trip
pub mod Replica
pub mod Browser
use synk.Base.{
  Text, codes, ℤ, pos, Option, none, some, List, [], ◌∷◌, ◌==◌, text_eq, if◌then◌else◌, ◌≡◌, refl,
}
use synk.Result.{ok}
use synk.Tag.{Tag}
use synk.Service.{Service}
use synk.Service.Memory.{Memory, memory}
use synk.Mongo.{Bson, Session}
use synk.Stest.Human.{Human, new_human, empty_diff, set_cx}

abbrev pub human_id : Human → Text
human_id h = h.tag.tag_id

abbrev pub human_sub : Human → Text
human_sub h = h.tag.tag_sub

abbrev pub World : Type 0
World = Memory human_id human_sub

abbrev pub services : Service World Human
services = memory human_id human_sub

abbrev pub human_bson : Bson Human Human
human_bson = record {
  to_doc = λ h. record h { diff = empty_diff };
  read_type = λ h. ok h.tag.tag_type;
  read_into = λ h container. ok (record h { diff = container.diff });
}

-- The `CreatorFunc` for humans
abbrev pub human_creator : Text → Option Human
human_creator key = if key == codes "c:h" then some new_human else none

-- A human on the map m, at the chunk 0|0, as Create stores it
abbrev pub hero : Human
hero = record {
  tag = record { tag_id = codes "hero!"; tag_sub = codes "m:0|0"; tag_type = codes "c:h"; v = 1 };
  x = pos 1;
  y = pos 2;
  cx = pos 0;
  cy = pos 0;
  ci = pos 3;
  map_id = codes "m";
  diff = empty_diff;
}

-- It is about to enter the chunk 1|0.
abbrev pub moving : Human
moving = record hero { diff = record empty_diff { cx = some (pos 1) } }

abbrev pub world : World
world = record { docs = hero ∷ []; log = [] }

abbrev pub moving_session : Session Human World
moving_session = record { object = moving; world = world }

-- A human that has not been created
abbrev pub recruit : Human
recruit = record new_human { map_id = codes "m" }

abbrev pub recruit_session : Session Human World
recruit_session = record { object = recruit; world = world }
