-- ===== src/MainLoop/Runs.antt =====
-- Schedules in which the main loop takes no message of the browser.
use synk.Base.{
  Text, Option-cases, none, some, List, [], ◌∷◌, ◌++◌, All, ◌≡◌, refl, sym, ap, subst, ◌∙◌, inl,
  inr, arith, append_assoc, append-nil,
}
use synk.Object.{Object}
use synk.Client.{SynkClient, Peer}
use synk.Client.Subscribe.{IsPeer}
use synk.MainLoop.{
  Socket, running, Loop, Event, receives, reads, ends_reading, writes, pings, handles, loads,
  drains, elsewhere, step, run,
}
use synk.MainLoop.Order.{
  emptied, forward, forwarded, IsQuiet, IsLive, backlog, Goes, step-Goes, none-some,
}

module _ {W : Type 0} where
  pub forwarded-cons :
      (c : SynkClient) (event : Event W) (events : List (Event W))
      → forwarded c (event ∷ events) ≡ forwarded c (event ∷ []) ++ forwarded c events
  unfolding forwarded
  forwarded-cons c (receives t) events = ap (λ l. l ++ forwarded c events) (sym (append-nil _))
  forwarded-cons c (reads m) events = refl
  forwarded-cons c ends_reading events = refl
  forwarded-cons c writes events = refl
  forwarded-cons c pings events = refl
  forwarded-cons c handles events = refl
  forwarded-cons c loads events = refl
  forwarded-cons c drains events = refl
  forwarded-cons c (elsewhere f) events = refl

  -- It depends on the client but for its channel.
  forwarded-emptied :
      (c : SynkClient) (events : List (Event W)) → forwarded (emptied c) events ≡ forwarded c events
  unfolding forwarded forward
  forwarded-emptied c [] = refl
  forwarded-emptied c (receives t ∷ events) =
      ap (λ l. forward c t ++ l) (forwarded-emptied c events)
  forwarded-emptied c (event ∷ events) = forwarded-emptied c events

  pub same_client :
      (c d : SynkClient) (events : List (Event W))
      → emptied d ≡ emptied c
      → forwarded d events ≡ forwarded c events
  same_client c d events h =
      sym (forwarded-emptied d events) ∙ ap (λ x. forwarded x events) h ∙ forwarded-emptied c events

  pub forwarded-next :
      (c d : SynkClient) (event : Event W) (events : List (Event W))
      → emptied d ≡ emptied c
      → forwarded c (event ∷ []) ++ forwarded d events ≡ forwarded c (event ∷ events)
  forwarded-next c d event events h =
      ap (λ l. forwarded c (event ∷ []) ++ l) (same_client c d events h)
      ∙ sym (forwarded-cons c event events)

module _ {O D W : Type 0} (I : Object O D) (peer : Peer O W) (socket : Socket W) where
  pub run-cons :
      (event : Event W) (events : List (Event W)) (s u : Loop W)
      → run I peer socket (event ∷ events) s ≡ some u
      → (t : Loop W) × (step I peer socket event s ≡ some t) × (run I peer socket events t ≡ some u)
  unfolding run
  run-cons event events s u h = elim (Option-cases (step I peer socket event s)) [
    | inl stuck ↦ absurd (
        none-some
          (sym (ap (λ o. elim o [ none ↦ none | some t ↦ run I peer socket events t ]) stuck) ∙ h))
    | inr (t, e) ↦
        (t, e, sym (ap (λ o. elim o [ none ↦ none | some t ↦ run I peer socket events t ]) e) ∙ h)
  ]

  pub run-next :
      (event : Event W) (events : List (Event W)) (s t : Loop W)
      → step I peer socket event s ≡ some t
      → run I peer socket (event ∷ events) s ≡ run I peer socket events t
  unfolding run
  run-next event events s t h =
      ap (λ o. elim o [ none ↦ none | some x ↦ run I peer socket events x ]) h

  pub run-nil : (s u : Loop W) → run I peer socket [] s ≡ some u → s ≡ u
  unfolding run
  run-nil s u h = ground arith

module _ {O D W : Type 0} (I : Object O D) (peer : Peer O W) (socket : Socket W)
    (sent : W → List Text) where
  module _ (laws : IsPeer peer sent) (live : IsLive I peer socket sent) where
    nothing-Goes :
        (s : Loop W)
        → s.status ≡ running
        → Goes I peer socket sent
            (emptied s.session.client)
            s
            s
            (forwarded {W = W} s.session.client [])
    unfolding forwarded
    nothing-Goes s r = record { status = r; client = refl; backlog = sym (append-nil _) }

    -- While the main loop takes no message of the browser, all that Receive lets through is sent,
    -- or waits in the channel, in order, behind what was there.
    pub run-Goes :
        (events : List (Event W)) (s u : Loop W)
        → All (IsQuiet sent) events
        → s.status ≡ running
        → run I peer socket events s ≡ some u
        → Goes I peer socket sent (emptied s.session.client) s u (forwarded s.session.client events)
    run-Goes [] s u q r h =
        subst
          (λ x.
            Goes I peer socket sent (emptied s.session.client) s x
              (forwarded {W = W} s.session.client []))
          (run-nil I peer socket s u h) (nothing-Goes s r)
    run-Goes (event ∷ events) s u q r h =
        let (t, first, rest) = run-cons I peer socket event events s u h in
        let one = step-Goes I peer socket sent laws live event s t q.0 r first in
        let more = run-Goes events t u q.1 one.status rest in
        record {
          status = more.status;
          client = more.client ∙ one.client;
          backlog =
              more.backlog
              ∙ ap (λ l. l ++ forwarded t.session.client events) one.backlog
              ∙ append_assoc (backlog I peer socket sent s)
                  (forwarded s.session.client (event ∷ [])) (forwarded t.session.client events)
              ∙ ap (λ l. backlog I peer socket sent s ++ l)
                  (forwarded-next s.session.client t.session.client event events one.client);
        }
