-- ===== src/Tests/Client.antt =====
-- A client on concrete messages.
use synk.Base.{
  ℕ, Text, codes, Bool, true, false, Option, none, some, List, [], ◌∷◌, ◌++◌, ◌≡◌, ◌<◌, refl,
  if◌then◌else◌, ◌==◌, text_eq, arith,
}
use synk.Base.Index.{Lacks}
use synk.Base.Dict
use synk.Result.{Result, ok, returns, Exec}
use synk.Service.{is_in}
use synk.Service.Memory.{memory-IsService}
use synk.Mongo.{load, modify, with_header}
use synk.Stest.Human.{Human}
use synk.Stest.Human.Methods.{human_object, human_object-IsObject}
use synk.Client.{
  SynkClient, Session, Peer, UpdateSubscription, Message, update, custom, enqueue, receive,
  update_subscription, handle_message, nil_dereference, buffer_length,
}
use synk.Client.Receive.{receive-with_brace}
use synk.Client.Delivery.{deliver, Informed, modify-Informed}
use synk.Client.Subscribe.{IsPeer, update_subscription-contains}
use synk.MainLoop.{Socket, Loop, closing, reads, handles, loads, run}
use synk.Connect.{started, started-panics}
use synk.Tests.{
  World, human_id, human_sub, services, human_bson, human_creator, hero, world, moving_session,
}
use synk.Tests.Mongo.{modifies}

-- A client that has subscribed to one chunk
abbrev pub viewer : Text → SynkClient
viewer key = record {
  id = codes "viewer!";
  subscriptions = (key, true) ∷ [];
  to_web_socket = [];
  has_custom = true;
}

receive-with_brace_example :
    receive (with_header (codes "m{1}:0|0") (codes "{}")) (viewer (codes "m{1}:0|0")) ≡ (
      if Dict.contains (codes "m") ((codes "m{1}:0|0", true) ∷ [])
      then some (viewer (codes "m{1}:0|0"))
      else enqueue (codes "{1}:0|0{}") (viewer (codes "m{1}:0|0")))
receive-with_brace_example =
    receive-with_brace (codes "m") (codes "1}:0|0") (codes "{}") (viewer (codes "m{1}:0|0"))
      (ground arith)

-- The client has subscribed to the chunk, and yet is sent a text that is not JSON.
brace_test :
    receive (with_header (codes "m{1}:0|0") (codes "{}")) (viewer (codes "m{1}:0|0"))
    ≡ some (record (viewer (codes "m{1}:0|0")) { to_web_socket = codes "{1}:0|0{}" ∷ [] })
unfolding receive synk.Base.Index.index with_header synk.Base.nat_eq synk.Client.receive_header
    text_eq
brace_test = refl

pub hero_key : Lacks b'{' (human_object.get_prev_sub_key moving_session.object)
unfolding synk.Stest.Human.get_prev_sub_key synk.Base.Number.itoa
hero_key = ground arith

abbrev moved : World
moved = (modify human_object services human_bson moving_session).1.world

modify-Informed_example :
    (out : List (Text × Text)) × (services.published moved ≡ services.published world ++ out)
    × ((next : SynkClient) × (deliver out (viewer (codes "m:1|0")) ≡ some next)
        × Informed human_object moving_session.object
            (modify human_object services human_bson moving_session).1.object
            (viewer (codes "m:1|0"))
            next)
modify-Informed_example =
    modify-Informed human_object services human_bson human_object-IsObject
      (memory-IsService human_id human_sub) moving_session none (viewer (codes "m:1|0")) modifies
      (omega arith) hero_key

-- The Redis agents, the Loader and the web socket of the tests
pub record Net : Type 0 where
  pub services_world : World
  pub written : List Text

abbrev load_humans : List Text → Exec Net (Result (List Human))
load_humans ks n =
    let (r, w) = load services human_bson human_creator ks n.services_world in
    (r, record n { services_world = w })

abbrev pub peer : Peer Human Net
peer = record {
  update_agents = λ add remove n. n;
  load = load_humans;
  write_message = λ t n. (none, record n { written = n.written ++ t ∷ [] });
  on_message = λ m raw s. s;
  on_subscribe = λ ks os s. s;
}

pub peer-IsPeer : IsPeer peer (λ n. n.written)
peer-IsPeer = record {
  on_subscribe-subscriptions = λ ks os s. refl;
  on_message-subscriptions = λ m raw s. refl;
  sent-on_subscribe = λ ks os s. refl;
  sent-update_agents = λ add remove n. refl;
  sent-load = λ ks n. refl;
  sent-write_message = λ t n h. refl;
}

abbrev pub socket : Socket Net
socket = record { ping = λ n. (none, n); close = λ n. n; remove_agent = λ n. n }

abbrev pub net : Net
net = record { services_world = world; written = [] }

abbrev pub session : Session Net
session = record { client = viewer (codes "m:5|5"); world = net }

abbrev pub request : UpdateSubscription
request = record { map_id = []; add = codes "m:0|0" ∷ []; remove = codes "m:5|5" ∷ [] }

update_subscription-contains_example :
    Dict.contains
      (codes "m:0|0")
      (update_subscription human_object peer request session).1.client.subscriptions
    ≡ (if is_in (codes "m:0|0") request.add
        then true
        else (if is_in (codes "m:0|0") request.remove
            then false
            else Dict.contains (codes "m:0|0") session.client.subscriptions))
update_subscription-contains_example =
    update_subscription-contains human_object peer peer-IsPeer request session (codes "m:0|0")

loads_hero : (load services human_bson human_creator request.add world).0 ≡ returns (ok (hero ∷ []))
unfolding load synk.Service.Memory.memory text_eq synk.Mongo.load_one
loads_hero = refl

started-panics_example :
    (s : Loop Net) × (run human_object peer socket
        (reads (update request) ∷ handles ∷ loads ∷ [])
        (started (codes "viewer!") net)
      ≡ some s)
    × (s.status ≡ closing (some nil_dereference))
started-panics_example =
    started-panics human_object peer socket (codes "viewer!") (codes "m:0|0") [] request.remove []
      (hero ∷ []) net loads_hero
