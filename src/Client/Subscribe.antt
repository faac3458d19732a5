-- ===== src/Client/Subscribe.antt =====
-- What `updateSubscription` and `handleMessage` do: the keys that the client has subscribed to
-- afterwards, what it is shown, and how they end.
use synk.Base.{
  Text, Bool, true, false, none, List, [], ◌∷◌, ◌++◌, ◌≡◌, refl, sym, ap, ◌∙◌, arith, if◌then◌else◌,
  text_eq, append_assoc, append-nil,
}
use mathlib.Core.List.{map}
use synk.Base.Dict
use synk.Base.Dict.{Dict, contains-erase, contains-insert}
use synk.Result.{
  continue, pure, Exec, ◌>>◌, Result, ok, err, Error, error_of, Outcome, returns, panics,
}
use synk.Object.{Object}
use synk.Service.{is_in}
use synk.Client.{
  nil_dereference, Session, Peer, UpdateSubscription, Message, update, custom, remove_keys,
  add_keys, object_bytes, write_objects, write_to_web_socket, show_loaded, load_keys, send_state,
  update_subscription, change_subscription, handle_message,
}

contains-remove_keys :
    (j : Text) (ks : List Text) (subs : Dict Text Bool)
    → Dict.contains j (remove_keys ks subs) ≡ (if is_in j ks then false else Dict.contains j subs)
unfolding remove_keys
contains-remove_keys j [] subs = refl
contains-remove_keys j (k ∷ ks) subs =
    ground (arith, contains-remove_keys j ks (Dict.erase k subs), contains-erase j k subs)

contains-add_keys :
    (j : Text) (ks : List Text) (subs : Dict Text Bool)
    → Dict.contains j (add_keys ks subs) ≡ (if is_in j ks then true else Dict.contains j subs)
unfolding add_keys
contains-add_keys j [] subs = refl
contains-add_keys j (k ∷ ks) subs =
    ground (arith, contains-add_keys j ks (Dict.insert k true subs), contains-insert j k true subs)

either_way : {A : Type 0} {x y : A} (b : Bool) (P : A → Type 0) → P x → P y → P (if b then x else y)
either_way true P p q = p
either_way false P p q = q

-- What the code relies on: the custom client is handed an interface without the subscriptions, and
-- the agents, the Loader and the callbacks do not write to the web socket themselves; a write
-- without an error has sent the message.
pub record IsPeer {O W : Type 0} (peer : Peer O W) (sent : W → List Text) : Type 0 where
  pub on_subscribe-subscriptions :
      (ks : List Text) (os : List O) (s : Session W)
      → (peer.on_subscribe ks os s).client.subscriptions ≡ s.client.subscriptions
  pub on_message-subscriptions :
      (m raw : Text) (s : Session W)
      → (peer.on_message m raw s).client.subscriptions ≡ s.client.subscriptions
  pub sent-on_subscribe :
      (ks : List Text) (os : List O) (s : Session W)
      → sent (peer.on_subscribe ks os s).world ≡ sent s.world
  pub sent-update_agents :
      (add remove : List Text) (w : W) → sent (peer.update_agents add remove w) ≡ sent w
  pub sent-load : (ks : List Text) (w : W) → sent (peer.load ks w).1 ≡ sent w
  pub sent-write_message :
      (t : Text) (w : W)
      → (peer.write_message t w).0 ≡ none
      → sent (peer.write_message t w).1 ≡ sent w ++ t ∷ []

module _ {O D W : Type 0} (I : Object O D) (peer : Peer O W) where
  show_loaded-subscriptions :
      {sent : W → List Text}
      → IsPeer peer sent
      → (keys : List Text) (r : Result (List O)) (s : Session W)
      → (show_loaded I peer keys r s).1.client.subscriptions ≡ s.client.subscriptions
  unfolding show_loaded
  show_loaded-subscriptions ok_peer keys (err e) s = refl
  show_loaded-subscriptions ok_peer keys (ok objs) s = ground (
    arith,
    ok_peer.on_subscribe-subscriptions keys objs
        (record s { world = write_objects I peer objs s.world }),
  )

  continue-subscriptions :
      {sent : W → List Text}
      → IsPeer peer sent
      → (keys : List Text) (r : Outcome (Result (List O))) (s : Session W)
      → (continue r (show_loaded I peer keys) s).1.client.subscriptions ≡ s.client.subscriptions
  continue-subscriptions ok_peer keys (returns r) s = show_loaded-subscriptions ok_peer keys r s
  continue-subscriptions ok_peer keys (panics t) s = refl

  send_state-subscriptions :
      {sent : W → List Text}
      → IsPeer peer sent
      → (keys : List Text) (s : Session W)
      → (send_state I peer keys s).1.client.subscriptions ≡ s.client.subscriptions
  unfolding send_state load_keys
  send_state-subscriptions ok_peer [] s = refl
  send_state-subscriptions ok_peer (k ∷ ks) s =
      continue-subscriptions ok_peer (k ∷ ks) (peer.load (k ∷ ks) s.world).0 _

  -- However it ends, the client has then subscribed to a key if the message adds it, or if it had
  -- subscribed and the message does not remove it.
  pub update_subscription-contains :
      {sent : W → List Text}
      → IsPeer peer sent
      → (msg : UpdateSubscription) (s : Session W) (key : Text)
      → Dict.contains key (update_subscription I peer msg s).1.client.subscriptions ≡ (
          if is_in key msg.add
          then true
          else (if is_in key msg.remove then false else Dict.contains key s.client.subscriptions))
  unfolding update_subscription change_subscription
  update_subscription-contains ok_peer msg s key =
      ap (Dict.contains key) (send_state-subscriptions ok_peer msg.add _)
      ∙ contains-add_keys key msg.add (remove_keys msg.remove s.client.subscriptions)
      ∙ ap (λ b. if is_in key msg.add then true else b)
          (contains-remove_keys key msg.remove s.client.subscriptions)

  -- Every object is written, in order.
  write_objects-sent :
      {sent : W → List Text}
      → IsPeer peer sent
      → ((t : Text) (w : W) → (peer.write_message t w).0 ≡ none)
      → (objs : List O) (w : W)
      → sent (write_objects I peer objs w) ≡ sent w ++ map (object_bytes I) objs
  unfolding write_objects write_to_web_socket
  write_objects-sent {sent} ok_peer live [] w = sym (append-nil (sent w))
  write_objects-sent {sent} ok_peer live (obj ∷ objs) w =
      write_objects-sent ok_peer live objs (peer.write_message (object_bytes I obj) w).1
      ∙ ap (λ l. l ++ map (object_bytes I) objs)
          (ok_peer.sent-write_message (object_bytes I obj) w (live (object_bytes I obj) w))
      ∙ append_assoc (sent w) (object_bytes I obj ∷ []) (map (object_bytes I) objs)

  pub show_loaded-sent :
      {sent : W → List Text}
      → IsPeer peer sent
      → ((t : Text) (w : W) → (peer.write_message t w).0 ≡ none)
      → (keys : List Text) (objs : List O) (s : Session W)
      → sent (show_loaded I peer keys (ok objs) s).1.world
        ≡ sent s.world ++ map (object_bytes I) objs
  unfolding show_loaded
  show_loaded-sent {sent} ok_peer live keys objs s =
      let shown : Session W = record s { world = write_objects I peer objs s.world } in
      let written = write_objects-sent ok_peer live objs s.world in
      either_way s.client.has_custom
        (λ (r : Outcome Error × Session W).
          sent r.1.world ≡ sent s.world ++ map (object_bytes I) objs)
        (ok_peer.sent-on_subscribe keys objs shown ∙ written) written

  pub show_loaded-returns :
      (keys : List Text) (r : Result (List O)) (s : Session W)
      → s.client.has_custom ≡ true
      → (show_loaded I peer keys r s).0 ≡ returns (error_of r)
  unfolding show_loaded
  show_loaded-returns keys (err e) s h = refl
  show_loaded-returns keys (ok objs) s h = ground arith

  send_state-returns :
      (keys : List Text) (s : Session W)
      → s.client.has_custom ≡ true
      → ((ks : List Text) (w : W) → (r : Result (List O)) × ((peer.load ks w).0 ≡ returns r))
      → (e : Error) × ((send_state I peer keys s).0 ≡ returns e)
  unfolding send_state load_keys
  send_state-returns [] s h loads = (none, refl)
  send_state-returns (k ∷ ks) s h loads =
      let (r, e) = loads (k ∷ ks) s.world in
      (
        error_of r,
        ap
              (λ o.
                (continue o (show_loaded I peer (k ∷ ks))
                  (record s { world = (peer.load (k ∷ ks) s.world).1 })).0)
              e
            ∙ show_loaded-returns (k ∷ ks) r _ h,
      )

  then_none :
      (m : Exec (Session W) Error) (s : Session W) (e : Error)
      → (m s).0 ≡ returns e
      → ((◌>>◌ {B = Error} m (pure none)) s).0 ≡ returns none
  then_none m s e h = rw h refl

  -- For a client with a custom client, `handleMessage` returns a nil error if Load does not panic.
  pub handle_message-returns :
      (m : Message) (s : Session W)
      → s.client.has_custom ≡ true
      → ((ks : List Text) (w : W) → (r : Result (List O)) × ((peer.load ks w).0 ≡ returns r))
      → (handle_message I peer m s).0 ≡ returns none
  unfolding handle_message update_subscription change_subscription
  handle_message-returns (custom msg) s h loads = ground arith
  handle_message-returns (update msg) s h loads =
      let (e, r) = send_state-returns msg.add _ h loads in
      then_none (update_subscription I peer msg) s e r

  -- Without a custom client, a message that adds keys panics once Load has returned without
  -- an error.
  pub handle_message_panics :
      (key : Text) (keys remove : List Text) (map_id : Text) (objs : List O) (s : Session W)
      → s.client.has_custom ≡ false
      → (peer.load (key ∷ keys) (peer.update_agents (key ∷ keys) remove s.world)).0
        ≡ returns (ok objs)
      → (handle_message I peer
          (update (record { map_id = map_id; add = key ∷ keys; remove = remove }))
          s).0
        ≡ panics nil_dereference
  unfolding handle_message update_subscription change_subscription send_state load_keys show_loaded
  handle_message_panics key keys remove map_id objs s h loaded = rw loaded (rw h refl)
