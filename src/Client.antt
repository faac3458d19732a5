-- ===== src/Client.antt =====
-- Client.go and the message types of Message.go: what a client's goroutines do with messages from
-- Redis and from the browser. The channel to the web socket is the list of the messages in its
-- buffer.
pub mod Receive
pub mod Delivery
pub mod Informs
pub mod Subscribe
use synk.Base.{
  ℕ, zero, suc, Text, codes, Bool, true, false, Option, none, some, List, [], ◌∷◌, ◌++◌, length,
  take, drop, ltb, text_eq, if◌then◌else◌,
}
use synk.Base.Dict
use synk.Base.Dict.{Dict}
use synk.Base.Index.{index, has_prefix}
use synk.Result.{
  Result, ok, err, Error, Outcome, returns, panics, Exec, pure, gets, ◌>>=◌, ◌>>◌, map_ok, error_of,
  or_nil,
}
use synk.Object.{Object}
use synk.Wire.Message.{AddMsg, marshal_add}

-- `clientBufferLength`
abbrev pub buffer_length : ℕ
buffer_length = 64

-- What a call of a method of a nil interface panics with
abbrev pub nil_dereference : Text
nil_dereference = codes "runtime error: invalid memory address or nil pointer dereference"

pub record SynkClient : Type 0 where
  pub id : Text
  pub subscriptions : Dict Text Bool
  pub to_web_socket : List Text
  -- `client.custom != nil`
  pub has_custom : Bool

-- `client.toWebSocket <- bytes`; `none` means that the buffer is full and the goroutine waits.
unfoldable pub enqueue : Text → SynkClient → Option SynkClient
enqueue bytes client =
    if ltb (length client.to_web_socket) buffer_length
    then some (record client { to_web_socket = client.to_web_socket ++ bytes ∷ [] })
    else none

-- The messages behind a header.
unfoldable pub receive_header : Text → Text → SynkClient → Option SynkClient
unfolding enqueue has_prefix Dict.contains
receive_header header bytes client =
    if has_prefix header (codes "from ")
    then (if Dict.contains (drop 5 header) client.subscriptions
        then some client
        else enqueue bytes client)
    else enqueue bytes client

-- `Receive`; it returns a nil error wherever it returns.
unfoldable pub receive : Text → SynkClient → Option SynkClient
receive s client = elim (index s b'{') [
  | none ↦ some client
  | some split ↦ elim split [
    | zero ↦ enqueue s client
    | suc n ↦ receive_header (take (suc n) s) (drop (suc n) s) client
  ]
]

pub record UpdateSubscription : Type 0 where
  pub map_id : Text
  pub add : List Text
  pub remove : List Text

pub record CustomMessage : Type 0 where
  pub method : Text
  pub raw : Text

-- What MessageFromBytes makes of a message without an error.
pub data Message : Type 0 where
  update : UpdateSubscription → Message
  custom : CustomMessage → Message

pub record Session (W : Type 0) : Type 0 where
  pub client : SynkClient
  pub world : W

-- What the client uses and does not own: the Redis agents, its Loader, the web socket, and the
-- callbacks of its custom client, which are handed the client and may write to its channel.
pub record Peer (O W : Type 0) : Type 0 where
  pub update_agents : List Text → List Text → W → W
  pub load : List Text → Exec W (Result (List O))
  pub write_message : Text → W → Error × W
  pub on_message : Text → Text → Session W → Session W
  pub on_subscribe : List Text → List O → Session W → Session W

-- `delete` for the keys of Remove, then `= true` for those of Add
unfoldable pub remove_keys : List Text → Dict Text Bool → Dict Text Bool
remove_keys [] subs = subs
remove_keys (k ∷ ks) subs = remove_keys ks (Dict.erase k subs)

unfoldable pub add_keys : List Text → Dict Text Bool → Dict Text Bool
add_keys [] subs = subs
add_keys (k ∷ ks) subs = add_keys ks (Dict.insert k true subs)

module _ {O W : Type 0} (peer : Peer O W) where
  -- The error of a write is logged, and dropped by the caller.
  unfoldable pub write_to_web_socket : Text → W → W
  write_to_web_socket bytes w = let (e, w') = peer.write_message bytes w in w'

module _ {O D : Type 0} (I : Object O D) where
  -- The message that shows a loaded object. If it cannot be marshalled, that is logged, and the
  -- bytes are nil.
  unfoldable pub object_bytes : O → Text
  object_bytes obj = or_nil (
      marshal_add I.marshal (record {
        state = I.state obj;
        id = I.tag_get_id obj;
        s_key = I.get_sub_key obj;
        ps_key = [];
        version = I.version obj;
        type = I.type_key obj;
      }))

module _ {O D W : Type 0} (I : Object O D) (peer : Peer O W) where
  unfoldable pub write_objects : List O → W → W
  unfolding write_to_web_socket object_bytes
  write_objects [] w = w
  write_objects (obj ∷ objs) w =
      write_objects objs (write_to_web_socket peer (object_bytes I obj) w)

  -- What follows the call of `Load`
  unfoldable pub show_loaded : List Text → Result (List O) → Exec (Session W) Error
  unfolding write_objects
  show_loaded keys (err e) s = (returns (some e), s)
  show_loaded keys (ok objs) s =
      let shown = record s { world = write_objects objs s.world } in
      if s.client.has_custom
      then (returns none, peer.on_subscribe keys objs shown)
      else (panics nil_dereference, shown)

  unfoldable pub load_keys : List Text → Exec (Session W) (Result (List O))
  load_keys keys s = let (r, w) = peer.load keys s.world in (r, record s { world = w })

  -- `if len(msg.Add) > 0`
  unfoldable pub send_state : List Text → Exec (Session W) Error
  unfolding load_keys show_loaded
  send_state [] = pure none
  send_state (k ∷ ks) = do objs ← load_keys (k ∷ ks); show_loaded (k ∷ ks) objs

  -- The client's map, and what the agents are told.
  unfoldable pub change_subscription : UpdateSubscription → Session W → Session W
  unfolding remove_keys add_keys
  change_subscription msg s =
      let subs = add_keys msg.add (remove_keys msg.remove s.client.subscriptions) in
      let client = record s.client { subscriptions = subs } in
      record { client = client; world = peer.update_agents msg.add msg.remove s.world }

  unfoldable pub update_subscription : UpdateSubscription → Exec (Session W) Error
  unfolding change_subscription send_state
  update_subscription msg s = send_state msg.add (change_subscription msg s)

  -- The error of `updateSubscription` is dropped here.
  unfoldable pub handle_message : Message → Exec (Session W) Error
  unfolding update_subscription
  handle_message (update msg) s = (update_subscription msg >> pure none) s
  handle_message (custom msg) s =
      if s.client.has_custom
      then (returns none, peer.on_message msg.method msg.raw s)
      else (returns (some (codes "Client.handleMessages does not handle synk.CustomMessage")), s)
