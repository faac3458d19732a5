-- ===== src/Connect.antt =====
-- newClient of Client.go: a client and its goroutines, before and after its custom client is set.
use synk.Base.{Option, ℕ, Text, true, false, some, List, [], ◌∷◌, ◌≡◌, refl, ◌∙◌, arith}
use synk.Id.{new_id}
use synk.Result.{ok, Error, Outcome, returns, panics}
use synk.Object.{Object}
use synk.Service.{Service}
use synk.Mongo.{Payload, publish}
use synk.Client.{enqueue, SynkClient}
use synk.Settings.{Settings}
use synk.Node.{Drivers, Node, create_loader, new_client}
use synk.Client.{Session, Peer, UpdateSubscription, update, nil_dereference, handle_message}
use synk.Client.Subscribe.{handle_message_panics}
use synk.MainLoop.{
  Socket, Loop, running, closing, reads, handles, loads, on_read, after_call, leave, step, run,
}
use synk.MainLoop.Calls.{handles-loads_lem}
use synk.MainLoop.Runs.{run-next}

-- The struct, and the goroutines that are started with it
unfoldable pub started : {W : Type 0} → Text → W → Loop W
started id w = record {
  session = record {
    client = record { id = id; subscriptions = []; to_web_socket = []; has_custom = false };
    world = w;
  };
  inbox = [];
  inbox_closed = false;
  status = running;
}

module _ {M R A L V O C K W : Type 0} (D : Drivers M R A L V) (settings : Settings) where
  -- Up to the start of the goroutines; `draws` is what NewID takes from rand.Intn.
  unfoldable pub begin_client : (ℕ → ℕ) → Node M A O C K → W → Outcome (Loop W)
  unfolding create_loader started
  begin_client draws node w = elim (create_loader D settings node) [
    | panics e ↦ panics e
    | returns loader ↦ returns (started (new_id draws) w)
  ]

module _ {M A O C K W : Type 0} where
  -- `client.custom = node.NewClient(client)`, and OnConnect. The goroutines may have gone on before.
  unfoldable pub set_custom :
      Node M A O C K → C → (K → Session W → Session W) → Loop W → Outcome (Loop W)
  unfolding new_client
  set_custom node c on_connect s = elim (new_client c node) [
    | panics e ↦ panics e
    | returns custom ↦ returns (record s {
      session =
          on_connect custom
            (record s.session { client = record s.session.client { has_custom = true } });
    })
  ]

-- What the custom client calls: `WriteToWebSocket`, a send to the channel that waits for room, and
-- `Publish`, over the Loader's.
unfoldable pub write_to_channel : Text → SynkClient → Option SynkClient
unfolding enqueue
write_to_channel bytes client = enqueue bytes client

unfoldable pub publish_from : {V Doc : Type 0} → Service V Doc → Text → Payload → V → Error × V
unfolding publish
publish_from S key msg v = publish S key msg v

after_call-panics :
    {W : Type 0} (socket : Socket W) (c : Outcome Error × Session W) (e : Text) (s : Loop W)
    → c.0 ≡ panics e
    → (after_call socket c s).status ≡ closing (some e)
unfolding after_call leave
after_call-panics socket (returns x, t) e s h = absurd (ground arith)
after_call-panics socket (panics f, t) e s h = ground arith

module _ {O D W : Type 0} (I : Object O D) (peer : Peer O W) (socket : Socket W) where
  -- If a message of the browser that adds keys is read and handled before the custom client is
  -- set, and Load has no error, then the main loop of a new client panics with a nil dereference,
  -- and goes to close.
  pub started-panics :
      (id key : Text) (keys remove : List Text) (map_id : Text) (objs : List O) (w : W)
      → (peer.load (key ∷ keys) (peer.update_agents (key ∷ keys) remove w)).0 ≡ returns (ok objs)
      → let msg : UpdateSubscription = record {
        map_id = map_id;
        add = key ∷ keys;
        remove = remove;
      } in
        (s : Loop W) × (run I peer socket (reads (update msg) ∷ handles ∷ loads ∷ []) (started id w)
          ≡ some s)
        × (s.status ≡ closing (some nil_dereference))
  unfolding started step on_read
  started-panics id key keys remove map_id objs w loaded =
      let msg : UpdateSubscription = record {
        map_id = map_id;
        add = key ∷ keys;
        remove = remove;
      } in
      let heard : Loop W = record (started id w) { inbox = update msg ∷ [] } in
      let taken =
        handle_message_panics I peer key keys remove map_id objs heard.session refl loaded in
      let ended =
        after_call socket (handle_message I peer (update msg) heard.session)
          (record heard { inbox = [] }) in
      (
        ended,
        run-next I peer socket (reads (update msg)) (handles ∷ loads ∷ []) (started id w) heard refl
            ∙ handles-loads_lem I peer socket msg [] heard refl refl,
        after_call-panics socket (handle_message I peer (update msg) heard.session) nil_dereference
            (record heard { inbox = [] }) taken,
      )
