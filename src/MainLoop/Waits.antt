-- ===== src/MainLoop/Waits.antt =====
-- What a step leaves while updateSubscription has yet to call Load.
use synk.Base.{
  Text, Option-cases, none, some, List, [], ◌∷◌, ◌++◌, All, ◌≡◌, refl, sym, ap, subst, ◌∙◌, inl,
  inr, arith, append_assoc, append-nil,
}
use mathlib.Core.Option.{some-injective}
use synk.Object.{Object}
use synk.Client.{SynkClient, Peer, receive}
use synk.MainLoop.{
  Socket, loading, Loop, Event, receives, reads, ends_reading, writes, pings, handles, loads,
  drains, elsewhere, on_receive, on_read, on_end, step_main, step, run,
}
use synk.MainLoop.Order.{
  emptied, forward, forwarded, receive-forward, receive-emptied, IsQuiet, none-some,
}
use synk.MainLoop.Runs.{forwarded-next, run-cons, run-nil}

module _ {W : Type 0} where
  -- An event other than the call of Load
  abbrev pub NotLoads : Event W → Type 0
  NotLoads loads = ⊥
  NotLoads _ = Unit

module _ {W : Type 0} (sent : W → List Text) where
  -- updateSubscription waits for Load: of the client, only the channel has changed, and nothing has
  -- been sent.
  pub record Waits (s t : Loop W) (out : List Text) : Type 0 where
    pub status : t.status ≡ s.status
    pub client : emptied t.session.client ≡ emptied s.session.client
    pub unsent : sent t.session.world ≡ sent s.session.world
    pub queue : t.session.client.to_web_socket ≡ s.session.client.to_web_socket ++ out

  received-Waits :
      (s : Loop W) (x : Text) (d : SynkClient)
      → receive x s.session.client ≡ some d
      → Waits s
          (record s { session = record s.session { client = d } })
          (forward s.session.client x)
  received-Waits s x d e = record {
    status = refl;
    client = receive-emptied x s.session.client d e;
    unsent = refl;
    queue = ap (λ c. c.to_web_socket) (receive-forward x s.session.client d e);
  }

  receives-Waits :
      (keys : List Text) (s t : Loop W) (x : Text)
      → s.status ≡ loading keys
      → on_receive x s s.status ≡ some t
      → Waits s t (forward s.session.client x)
  unfolding on_receive
  receives-Waits keys s t x r h = elim (Option-cases (receive x s.session.client)) [
    | inl no_room ↦ absurd (ground arith)
    | inr (d, e) ↦
        subst (λ u. Waits s u (forward s.session.client x)) (ground arith) (received-Waits s x d e)
  ]

  kept-Waits : (s t : Loop W) → t.status ≡ s.status → t.session ≡ s.session → Waits s t []
  kept-Waits s t same session = record {
    status = same;
    client = ap (λ x. emptied x.client) session;
    unsent = ap (λ x. sent x.world) session;
    queue = ap (λ x. x.client.to_web_socket) session ∙ sym (append-nil _);
  }

  elsewhere-Waits :
      (s t : Loop W) (f : W → W)
      → ((w : W) → sent (f w) ≡ sent w)
      → some (record s { session = record s.session { world = f s.session.world } }) ≡ some t
      → Waits s t []
  elsewhere-Waits s t f unsent h =
      subst (λ u. Waits s u []) (some-injective _ _ h)
        (record {
          status = refl;
          client = refl;
          unsent = unsent s.session.world;
          queue = sym (append-nil _);
        })

module _ {O D W : Type 0} (I : Object O D) (peer : Peer O W) (socket : Socket W)
    (sent : W → List Text) where
  stuck-Waits :
      (keys : List Text) (event : Event W) (s t : Loop W) (out : List Text)
      → s.status ≡ loading keys
      → step_main I peer socket event s (loading keys) ≡ none
      → step_main I peer socket event s s.status ≡ some t
      → Waits sent s t out
  stuck-Waits keys event s t out r stuck h =
      absurd (none-some (sym (ap (step_main I peer socket event s) r ∙ stuck) ∙ h))

  pub step-Waits :
      (keys : List Text) (event : Event W) (s t : Loop W)
      → IsQuiet sent event
      → NotLoads event
      → s.status ≡ loading keys
      → step I peer socket event s ≡ some t
      → Waits sent s t (forwarded s.session.client (event ∷ []))
  unfolding step forwarded on_read on_end
  step-Waits keys (receives x) s t q n r h =
      rw (append-nil (forward s.session.client x)) (receives-Waits sent keys s t x r h)
  step-Waits keys (reads m) s t q n r h = kept-Waits sent s t (ground arith) (ground arith)
  step-Waits keys ends_reading s t q n r h = kept-Waits sent s t (ground arith) (ground arith)
  step-Waits keys (elsewhere f) s t q n r h = elsewhere-Waits sent s t f q h
  step-Waits keys writes s t q n r h = stuck-Waits keys writes s t _ r refl h
  step-Waits keys pings s t q n r h = stuck-Waits keys pings s t _ r refl h
  step-Waits keys handles s t q n r h = absurd q
  step-Waits keys loads s t q n r h = absurd n
  step-Waits keys drains s t q n r h = stuck-Waits keys drains s t _ r refl h

  pub nothing-Waits : (s : Loop W) → Waits sent s s []
  nothing-Waits s = kept-Waits sent s s refl refl

  -- What happens before the call of Load.
  pub run-Waits :
      (keys : List Text) (events : List (Event W)) (s t : Loop W)
      → All (IsQuiet sent) events
      → All NotLoads events
      → s.status ≡ loading keys
      → run I peer socket events s ≡ some t
      → Waits sent s t (forwarded s.session.client events)
  unfolding forwarded
  run-Waits keys [] s t q n r h =
      subst (λ x. Waits sent s x []) (run-nil I peer socket s t h) (nothing-Waits s)
  run-Waits keys (event ∷ events) s u q n r h =
      let (t, first, rest) = run-cons I peer socket event events s u h in
      let one = step-Waits keys event s t q.0 n.0 r first in
      let more = run-Waits keys events t u q.1 n.1 (one.status ∙ r) rest in
      record {
        status = more.status ∙ one.status;
        client = more.client ∙ one.client;
        unsent = more.unsent ∙ one.unsent;
        queue =
            more.queue
            ∙ ap (λ l. l ++ forwarded t.session.client events) one.queue
            ∙ append_assoc s.session.client.to_web_socket (forwarded s.session.client (event ∷ []))
                (forwarded t.session.client events)
            ∙ ap (λ l. s.session.client.to_web_socket ++ l)
                (forwarded-next s.session.client t.session.client event events one.client);
      }
