-- ===== src/MainLoop/Snapshot.antt =====
-- A browser that subscribes is sent what is there, and then all that comes.
use synk.Base.{
  Text, true, some, List, ◌∷◌, ◌++◌, All, ◌≡◌, refl, sym, ap, subst, ◌∙◌, arith, map, append_assoc,
  append-nil,
}
use mathlib.Core.Option.{some-injective}
use synk.Result.{Result, ok, err, Error, or_nil, error_of, Outcome, returns, panics, continue}
use synk.Object.{Object}
use synk.Client.{
  Session, Peer, UpdateSubscription, Message, update, change_subscription, send_state, show_loaded,
  load_keys, write_objects, object_bytes,
}
use synk.Client.Subscribe.{IsPeer, show_loaded-sent, show_loaded-returns}
use synk.MainLoop.{
  Socket, running, loading, Loop, Event, handles, loads, on_handle, after_call, step_main, step,
  run,
}
use synk.MainLoop.Order.{forwarded, IsQuiet, IsLive, backlog}
use synk.MainLoop.Runs.{same_client, run-cons, run-Goes}
use synk.MainLoop.Waits.{Waits, NotLoads, run-Waits}

regroup : (a b c d e : List Text) → ((a ++ b) ++ (c ++ d)) ++ e ≡ a ++ (b ++ (c ++ (d ++ e)))
regroup a b c d e =
    append_assoc (a ++ b) (c ++ d) e
    ∙ append_assoc a b ((c ++ d) ++ e)
    ∙ ap (λ l. a ++ (b ++ l)) (append_assoc c d e)

module _ {O D W : Type 0} (I : Object O D) (peer : Peer O W) (socket : Socket W)
    (sent : W → List Text) where
  pub handles-next :
      (msg : UpdateSubscription) (inbox : List Message) (s t : Loop W)
      → s.status ≡ running
      → s.inbox ≡ update msg ∷ inbox
      → step I peer socket handles s ≡ some t
      → t ≡ record s {
        session = change_subscription I peer msg s.session;
        inbox = inbox;
        status = loading msg.add;
      }
  unfolding step step_main on_handle
  handles-next msg inbox s t r next h =
      let taken = ap (step_main I peer socket handles s) r ∙ ap (on_handle I peer socket s) next in
      some-injective _ _ (sym h ∙ taken)

  -- Load is called: what it returned is shown, and the main loop goes on.
  record Shows (keys : List Text) (s t : Loop W) : Type 0 where
    result : Result (List O)
    loaded : (peer.load keys s.session.world).0 ≡ returns result
    status : t.status ≡ running
    client : t.session.client ≡ s.session.client
    sent_all : sent t.session.world ≡ sent s.session.world ++ map (object_bytes I) (or_nil result)

  module _ (laws : IsPeer peer sent) (live : IsLive I peer socket sent)
      (silent : (ks : List Text) (os : List O) (s : Session W)
        → (peer.on_subscribe ks os s).client ≡ s.client)
      (load_returns : (ks : List Text) (w : W)
        → (r : Result (List O)) × ((peer.load ks w).0 ≡ returns r)) where
    after_call_returns :
        (c : Outcome Error × Session W) (e : Error) (s : Loop W)
        → c.0 ≡ returns e
        → after_call socket c s ≡ record s { session = c.1; status = running }
    unfolding after_call
    after_call_returns (returns f, session) e s h = refl
    after_call_returns (panics f, session) e s h = absurd (ground arith)

    show_loaded-client :
        (keys : List Text) (r : Result (List O)) (s : Session W)
        → (show_loaded I peer keys r s).1.client ≡ s.client
    unfolding show_loaded
    show_loaded-client keys (err e) s = refl
    show_loaded-client keys (ok objs) s =
        ground (arith, silent keys objs (record s { world = write_objects I peer objs s.world }))

    show_loaded_sent :
        (keys : List Text) (r : Result (List O)) (s : Session W)
        → sent (show_loaded I peer keys r s).1.world
          ≡ sent s.world ++ map (object_bytes I) (or_nil r)
    unfolding show_loaded
    show_loaded_sent keys (err e) s = sym (append-nil _)
    show_loaded_sent keys (ok objs) s = show_loaded-sent I peer laws live.writes_ok keys objs s

    loads-Shows :
        (k : Text) (ks : List Text) (s t : Loop W)
        → s.session.client.has_custom ≡ true
        → some (after_call socket (send_state I peer (k ∷ ks) s.session) s) ≡ some t
        → Shows (k ∷ ks) s t
    unfolding send_state load_keys
    loads-Shows k ks s t has h =
        let keys = k ∷ ks in
        let (r, loaded) = load_returns keys s.session.world in
        let after : Session W = record s.session { world = (peer.load keys s.session.world).1 } in
        let called : send_state I peer keys s.session ≡ show_loaded I peer keys r after =
          ap (λ o. continue o (show_loaded I peer keys) after) loaded in
        let c = show_loaded I peer keys r after in
        let ended =
          after_call_returns c (error_of r) s (show_loaded-returns I peer keys r after has) in
        let same : t ≡ record s { session = c.1; status = running } =
          some-injective _ _
            (sym h ∙ ap (λ x. some (after_call socket x s)) called ∙ ap some ended) in
        subst (Shows keys s) (sym same) (record {
          result = r;
          loaded = loaded;
          status = refl;
          client = show_loaded-client keys r after;
          sent_all =
              show_loaded_sent keys r after
              ∙ ap (λ l. l ++ map (object_bytes I) (or_nil r))
                  (laws.sent-load keys s.session.world);
        })

    -- What the browser is sent, from the begin of updateSubscription: `s` waits for Load until `t`.
    waited-backlog :
        (k : Text) (ks : List Text) (waiting after : List (Event W)) (s t u : Loop W)
        → Waits sent s t (forwarded s.session.client waiting)
        → s.status ≡ loading (k ∷ ks)
        → s.session.client.has_custom ≡ true
        → All (IsQuiet sent) after
        → run I peer socket (loads ∷ after) t ≡ some u
        → (u.status ≡ running)
          × (r : Result (List O)) × ((peer.load (k ∷ ks) t.session.world).0 ≡ returns r)
          × (backlog I peer socket sent u
              ≡ sent s.session.world
                ++ (map (object_bytes I) (or_nil r)
                    ++ (s.session.client.to_web_socket
                        ++ (forwarded s.session.client waiting
                            ++ forwarded s.session.client after))))
    unfolding step
    waited-backlog k ks waiting after s t u waits l has q h =
        let (v, first, rest) = run-cons I peer socket loads after t u h in
        let at_load = ap (step_main I peer socket loads t) (waits.status ∙ l) in
        let shows =
          loads-Shows k ks t v (ap (λ c. c.has_custom) waits.client ∙ has) (sym at_load ∙ first) in
        let goes = run-Goes I peer socket sent laws live after v u q shows.status rest in
        let objs = map (object_bytes I) (or_nil shows.result) in
        (
          goes.status,
          shows.result,
          shows.loaded,
          goes.backlog
              ∙ ap (λ l. (l ++ v.session.client.to_web_socket) ++ forwarded v.session.client after)
                  (shows.sent_all ∙ ap (λ l. l ++ objs) waits.unsent)
              ∙ ap (λ c. ((sent s.session.world ++ objs) ++ c.to_web_socket) ++ forwarded c after)
                  shows.client
              ∙ ap (λ l. ((sent s.session.world ++ objs) ++ t.session.client.to_web_socket) ++ l)
                  (same_client s.session.client t.session.client after waits.client)
              ∙ ap (λ l. ((sent s.session.world ++ objs) ++ l) ++ forwarded s.session.client after)
                  waits.queue
              ∙ regroup (sent s.session.world) objs s.session.client.to_web_socket
                  (forwarded s.session.client waiting) (forwarded s.session.client after),
        )

    -- A browser that subscribes misses nothing: in a schedule where a message that adds keys is
    -- handled, other goroutines act, Load is called, and they go on, the main loop is running
    -- at the end, and what the browser has been sent or will be is what it had been sent, then
    -- the objects that Load returned (none if it had an error), then what waited in the
    -- channel, then all that Receive let through since the subscription changed, before or
    -- after Load, in order; where the custom client is set, Load does not panic, no write and
    -- no ping fails, nobody but the main loop writes to the web socket, OnSubscribe leaves the
    -- client alone, and no other message of the browser is handled.
    pub handles-loads-backlog :
        (msg : UpdateSubscription) (k : Text) (ks : List Text) (inbox : List Message)
        (waiting after : List (Event W)) (s t u : Loop W)
        → s.status ≡ running
        → s.session.client.has_custom ≡ true
        → s.inbox ≡ update msg ∷ inbox
        → msg.add ≡ k ∷ ks
        → All (IsQuiet sent) waiting
        → All NotLoads waiting
        → All (IsQuiet sent) after
        → run I peer socket (handles ∷ waiting) s ≡ some t
        → run I peer socket (loads ∷ after) t ≡ some u
        → (u.status ≡ running)
          × (r : Result (List O)) × ((peer.load (k ∷ ks) t.session.world).0 ≡ returns r)
          × (backlog I peer socket sent u
              ≡ sent s.session.world
                ++ (map (object_bytes I) (or_nil r)
                    ++ (s.session.client.to_web_socket
                        ++ (forwarded (change_subscription I peer msg s.session).client waiting
                            ++ forwarded (change_subscription I peer msg s.session).client after))))
    unfolding change_subscription
    handles-loads-backlog msg k ks inbox waiting after s t u r has next adds q n q' h1 h2 =
        let (v, first, rest) = run-cons I peer socket handles waiting s t h1 in
        let begun = handles-next msg inbox s v r next first in
        let loading_keys = ap (λ x. x.status) begun ∙ ap loading adds in
        let waits = run-Waits I peer socket sent (k ∷ ks) waiting v t q n loading_keys rest in
        let has' = ap (λ x. x.session.client.has_custom) begun ∙ has in
        let (ended, o, loaded, all) =
          waited-backlog k ks waiting after v t u waits loading_keys has' q' h2 in
        let objs = map (object_bytes I) (or_nil o) in
        (
          ended,
          o,
          loaded,
          all
              ∙ ap
                  (λ x.
                    sent x.session.world
                    ++ (objs
                        ++ (x.session.client.to_web_socket
                            ++ (forwarded x.session.client waiting
                                ++ forwarded x.session.client after))))
                  begun
              ∙ ap
                  (λ l.
                    l
                    ++ (objs
                        ++ (s.session.client.to_web_socket
                            ++ (forwarded (change_subscription I peer msg s.session).client waiting
                                ++ forwarded (change_subscription I peer msg s.session).client
                                    after))))
                  (laws.sent-update_agents msg.add msg.remove s.session.world),
        )
