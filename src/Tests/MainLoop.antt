-- ===== src/Tests/MainLoop.antt =====
-- The main loop of a client on concrete schedules.
use synk.Base.{
  ℕ, Text, codes, Bool, true, false, Option, none, some, List, [], ◌∷◌, ◌++◌, ◌≡◌, ◌≤◌, refl, map,
  length, All, ◌⊎◌, inl, inr, arith, if◌then◌else◌, ◌==◌, text_eq,
}
use synk.Result.{Result, returns, or_nil}
use synk.Stest.Human.{Human}
use synk.Stest.Human.Methods.{human_object, human_object-IsObject}
use synk.Client.{
  Session, Peer, Message, update, custom, change_subscription, handle_message, object_bytes,
  buffer_length,
}
use synk.MainLoop.{
  running, closing, Loop, Event, receives, writes, handles, loads, drains, elsewhere, step, run,
}
use synk.MainLoop.Order.{forwarded, backlog, IsLive}
use synk.MainLoop.Snapshot.{handles-loads-backlog}
use synk.MainLoop.Close.{repeat, drains-finished, closed_down}
use synk.MainLoop.After.{Left, run-Left, run-receives}
use synk.Tests.{services, human_bson, human_creator}
use synk.MainLoop.Arrive.{arrivals, modify-sent}
use synk.Client.{SynkClient}
use synk.Client.Delivery.{Informed}
use synk.Mongo.{modify}
use synk.Service.Memory.{memory-IsService}
use synk.Tests.{human_id, human_sub, moving, moving_session, world}
use synk.Tests.Mongo.{modifies}
use synk.Tests.Client.{hero_key, socket, Net, peer, peer-IsPeer, session, request, viewer}

live : IsLive human_object peer socket (λ n. n.written)
live = record { writes_ok = λ t n. refl; pings_ok = λ n. refl; sent-ping = λ n. refl }

abbrev begin : Loop Net
begin = record {
  session = session;
  inbox = update request ∷ [];
  inbox_closed = false;
  status = running;
}

-- Where a schedule leads, if it does
abbrev reached : List (Event Net) → Loop Net → Loop Net
reached events s = elim (run human_object peer socket events s) [ none ↦ s | some t ↦ t ]

abbrev waiting : List (Event Net)
waiting = receives (codes "{1}") ∷ elsewhere (λ n. n) ∷ []

abbrev after : List (Event Net)
after = receives (codes "from m:0|0{2}") ∷ writes ∷ receives (codes "{3}") ∷ []

abbrev until_load : Loop Net
until_load = reached (handles ∷ waiting) begin

abbrev until_end : Loop Net
until_end = reached (loads ∷ after) until_load

waited : run human_object peer socket (handles ∷ waiting) begin ≡ some until_load
unfolding run synk.Client.receive synk.Base.Index.index synk.Base.nat_eq synk.Client.enqueue
    change_subscription
waited = refl

ended : run human_object peer socket (loads ∷ after) until_load ≡ some until_end
unfolding run synk.Client.receive synk.Base.Index.index synk.Base.nat_eq synk.Client.enqueue
    change_subscription synk.Client.send_state synk.Mongo.load synk.Service.Memory.memory
    synk.Client.receive_header synk.Base.Dict.insert text_eq
ended = refl

handles-loads-backlog_example :
    (until_end.status ≡ running)
    × (r : Result (List Human)) × ((peer.load request.add until_load.session.world).0 ≡ returns r)
    × (backlog human_object peer socket (λ n. n.written) until_end
        ≡ []
          ++ (map (object_bytes human_object) (or_nil r)
              ++ ([]
                  ++ (forwarded
                        (change_subscription human_object peer request session).client
                        waiting
                      ++ forwarded
                          (change_subscription human_object peer request session).client
                          after))))
unfolding synk.Service.Memory.memory
handles-loads-backlog_example =
    handles-loads-backlog human_object peer socket (λ n. n.written) peer-IsPeer live
      (λ ks os s. refl)
      (λ ks n. synk.Mongo.Load.load_total services human_bson human_creator ks n.services_world tt)
      request (codes "m:0|0") [] [] waiting after begin until_load until_end refl refl refl refl
      (tt, (λ n. refl, tt)) (tt, (tt, tt)) (tt, (tt, (tt, tt))) waited ended

-- The main loop has left, with a full channel and one message of the browser.
abbrev leaving : Loop Net
leaving = record {
  session = record session {
    client = record (viewer (codes "m:5|5")) { to_web_socket = repeat buffer_length (codes "{}") };
  };
  inbox = update request ∷ [];
  inbox_closed = true;
  status = closing none;
}

drains-finished_example :
    run human_object peer socket (repeat 2 drains) leaving ≡ some (closed_down socket none leaving)
drains-finished_example =
    drains-finished human_object peer socket none (update request ∷ []) leaving refl refl refl

abbrev down : Loop Net
down = reached (drains ∷ []) leaving

drained : run human_object peer socket (drains ∷ []) leaving ≡ some down
unfolding run
drained = refl

run-Left_example : Left (λ (n : Net). n.written) none leaving down
run-Left_example =
    run-Left human_object peer socket (λ n. n.written) (λ n. refl) none (drains ∷ []) leaving down
      (tt, tt) (inl refl) drained

run-receives_example : step human_object peer socket (receives (codes "{}")) down ≡ none
unfolding repeat
run-receives_example =
    run-receives human_object peer socket (λ n. n.written) (λ n. refl) none (drains ∷ []) leaving
      down (codes "{}") (tt, tt) refl refl (record { rest = codes "}"; begins = refl }) drained

-- A client that is shown the chunk which the human enters, with a message in its channel
abbrev watching : Loop Net
watching = record begin {
  session = record session {
    client = record (viewer (codes "m:1|0")) { to_web_socket = codes "{}" ∷ [] };
  };
  inbox = [];
}

modify-sent_example :
    let t = (modify human_object services human_bson moving_session).1 in
    (out : List (Text × Text)) × (services.published t.world ≡ services.published world ++ out)
    × (next : SynkClient) × Informed human_object moving t.object watching.session.client next
    × (u : Loop Net) × (run human_object peer socket
          (arrivals out watching.session.client.subscriptions
            ++ repeat (length next.to_web_socket) writes)
          watching
        ≡ some u)
    × (u.status ≡ running)
    × (u.session.world.written ≡ [] ++ next.to_web_socket)
modify-sent_example =
    modify-sent human_object peer socket (λ n. n.written) peer-IsPeer live services human_bson
      human_object-IsObject (memory-IsService human_id human_sub) moving_session none watching
      modifies refl (omega arith) hero_key
