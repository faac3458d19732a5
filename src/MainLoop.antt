-- ===== src/MainLoop.antt =====
-- The goroutines of a client, in Client.go: the main loop, the reader of the web socket, the Redis
-- agents that call Receive, and Close. An event is one step of one of them; a schedule of events is
-- a run. An event that finds its goroutine waiting is `none`.
pub mod Order
pub mod Runs
pub mod Waits
pub mod Snapshot
pub mod Close
pub mod Calls
pub mod After
pub mod Flush
pub mod Arrive
use synk.Base.{
  ℕ, Text, Bool, true, false, Option, none, some, List, [], ◌∷◌, ◌++◌, length, ltb, if◌then◌else◌,
}
use mathlib.Core.Option
use synk.Result.{Error, Outcome, returns, panics}
use synk.Object.{Object}
use synk.Client.{
  SynkClient, Session, Peer, Message, update, custom, buffer_length, receive, change_subscription,
  send_state, handle_message,
}

-- The rest of the web socket, and RemoveAgent of the Redis agents
pub record Socket (W : Type 0) : Type 0 where
  pub ping : W → Error × W
  pub close : W → W
  pub remove_agent : W → W

-- Where the main loop is: before its select; inside updateSubscription, after the subscription has
-- changed and before the call of Load; in the deferred Close, which drains the channel; or after
-- it. The last two keep the panic, if it was a panic that made the main loop leave.
pub data Status : Type 0 where
  running : Status
  loading : List Text → Status
  closing : Option Text → Status
  finished : Option Text → Status

-- `to_web_socket` is in the client of the session; `inbox` is `fromWebSocket`.
pub record Loop (W : Type 0) : Type 0 where
  pub session : Session W
  pub inbox : List Message
  pub inbox_closed : Bool
  pub status : Status

pub data Event (W : Type 0) : Type 0 where
  -- an agent calls Receive
  receives : Text → Event W
  -- the reader sends what it has parsed, or ends and closes the channel
  reads : Message → Event W
  ends_reading : Event W
  -- the main loop takes a case of its select
  writes pings handles : Event W
  -- it goes on from the subscription to Load
  loads : Event W
  -- Close takes from the channel
  drains : Event W
  -- another goroutine or process, as one that changes the objects in the database
  elsewhere : (W → W) → Event W

module _ {W : Type 0} (socket : Socket W) where
  -- `return`, or a panic, and what the deferred Close does first
  unfoldable pub leave : Option Text → Loop W → Loop W
  leave cause s = record s {
    session = record s.session { world = socket.close s.session.world };
    status = closing cause;
  }

  -- What the main loop does with the result of a write
  unfoldable pub after_write : Error × W → Loop W → Loop W
  unfolding leave
  after_write (none, w) s = record s { session = record s.session { world = w } }
  after_write (some e, w) s = leave none (record s { session = record s.session { world = w } })

  -- The main loop goes on after a call, unless it panics.
  unfoldable pub after_call : Outcome Error × Session W → Loop W → Loop W
  unfolding leave
  after_call (returns e, session) s = record s { session = session; status = running }
  after_call (panics e, session) s = leave (some e) (record s { session = session })

  -- `for range client.fromWebSocket`, and the end of Close
  unfoldable pub on_drain : Option Text → Loop W → List Message → Option (Loop W)
  on_drain cause s (m ∷ inbox) = some (record s { inbox = inbox })
  on_drain cause s [] =
      if s.inbox_closed
      then some (record s {
        session = record s.session { world = socket.remove_agent s.session.world };
        status = finished cause;
      })
      else none

module _ {W : Type 0} where
  -- A call of Receive, while the client is an agent
  unfoldable pub on_receive : Text → Loop W → Status → Option (Loop W)
  on_receive t s (finished cause) = none
  on_receive t s status =
      Option.map (λ c. record s { session = record s.session { client = c } })
        (receive t s.session.client)

  -- `client.fromWebSocket <- message`
  unfoldable pub on_read : Message → Loop W → Option (Loop W)
  on_read m s =
      if s.inbox_closed
      then none
      else if ltb (length s.inbox) buffer_length
      then some (record s { inbox = s.inbox ++ m ∷ [] })
      else none

  -- `defer close(client.fromWebSocket)`
  unfoldable pub on_end : Loop W → Option (Loop W)
  on_end s = if s.inbox_closed then none else some (record s { inbox_closed = true })

module _ {O D W : Type 0} (I : Object O D) (peer : Peer O W) (socket : Socket W) where
  -- `case message, ok := <-client.toWebSocket`
  unfoldable pub on_write : Loop W → List Text → Option (Loop W)
  unfolding after_write
  on_write s [] = none
  on_write s (t ∷ queue) =
      let client = record s.session.client { to_web_socket = queue } in
      some (
        after_write socket (peer.write_message t s.session.world)
          (record s { session = record s.session { client = client } }))

  -- `case message, ok := <-client.fromWebSocket`
  unfoldable pub on_handle : Loop W → List Message → Option (Loop W)
  unfolding after_call leave
  on_handle s [] = if s.inbox_closed then some (leave socket none s) else none
  on_handle s (update msg ∷ inbox) = some (record s {
    session = change_subscription I peer msg s.session;
    inbox = inbox;
    status = loading msg.add;
  })
  on_handle s (custom msg ∷ inbox) = some (
      after_call socket (handle_message I peer (custom msg) s.session) (record s { inbox = inbox }))

  unfoldable pub step_main : Event W → Loop W → Status → Option (Loop W)
  unfolding on_write on_handle after_write after_call on_drain
  step_main writes s running = on_write s s.session.client.to_web_socket
  step_main pings s running = some (after_write socket (socket.ping s.session.world) s)
  step_main handles s running = on_handle s s.inbox
  step_main loads s (loading keys) = some (after_call socket (send_state I peer keys s.session) s)
  step_main drains s (closing cause) = on_drain socket cause s s.inbox
  step_main event s status = none

  unfoldable pub step : Event W → Loop W → Option (Loop W)
  unfolding on_receive on_read on_end step_main
  step (receives t) s = on_receive t s s.status
  step (reads m) s = on_read m s
  step ends_reading s = on_end s
  step (elsewhere f) s =
      some (record s { session = record s.session { world = f s.session.world } })
  step event s = step_main event s s.status

  -- A schedule
  unfoldable pub run : List (Event W) → Loop W → Option (Loop W)
  unfolding step
  run [] s = some s
  run (event ∷ events) s = elim (step event s) [ none ↦ none | some t ↦ run events t ]
