-- ===== src/MainLoop/After.antt =====
-- After the main loop has left: nothing is sent any more, and a full channel stays full.
use synk.Base.{
  Text, true, false, Option, Option-cases, none, some, List, [], ◌∷◌, ◌++◌, append-nil,
  append_assoc, length-append, All, length, ltb, ◌≡◌, refl, sym, ap, subst, ◌∙◌, ◌⊎◌, inl, inr,
  arith,
}
use mathlib.Core.Option
use mathlib.Core.Option.{some-injective}
use synk.Object.{Object}
use synk.Client.{SynkClient, Peer, Message, buffer_length, receive, enqueue}
use synk.Client.Receive.{receive_plain}
use synk.Wire.Message.{IsObjectText}
use synk.MainLoop.{
  Socket, Status, closing, finished, Loop, Event, receives, reads, ends_reading, writes, pings,
  handles, loads, drains, elsewhere, on_receive, on_read, on_end, on_drain, step_main, step, run,
}
use synk.MainLoop.Order.{none-some}
use synk.MainLoop.Runs.{run-nil, run-cons}
use synk.MainLoop.Order.{forward, receive-forward, receive-emptied, emptied}

module _ {W : Type 0} (sent : W → List Text) where
  -- An event of anyone else does not write to the web socket.
  abbrev pub IsOwn : Event W → Type 0
  IsOwn (elsewhere f) = (w : W) → sent (f w) ≡ sent w
  IsOwn _ = Unit

  -- What can come of `s`, whose main loop has left: Close waits, or has ended after the reader.
  -- Nothing has been sent, the client's subscriptions are the same, and the channel has only grown.
  pub record Left (cause : Option Text) (s u : Loop W) : Type 0 where
    pub status :
        (u.status ≡ closing cause) ⊎ ((u.status ≡ finished cause) × (u.inbox_closed ≡ true))
    pub unsent : sent u.session.world ≡ sent s.session.world
    pub client : emptied u.session.client ≡ emptied s.session.client
    pub added : List Text
    pub grows : u.session.client.to_web_socket ≡ s.session.client.to_web_socket ++ added

module _ {O D W : Type 0} (I : Object O D) (peer : Peer O W) (socket : Socket W)
    (sent : W → List Text) where
  module _ (remove_unsent : (w : W) → sent (socket.remove_agent w) ≡ sent w) where
    received-Left :
        (cause : Option Text) (s u : Loop W) (t : Text)
        → s.status ≡ closing cause
        → on_receive t s s.status ≡ some u
        → Left sent cause s u
    unfolding on_receive
    received-Left cause s u t r h = elim (Option-cases (receive t s.session.client)) [
      | inl no_room ↦ absurd (ground arith)
      | inr (d, e) ↦
          subst (Left sent cause s)
            (some-injective _ _ (
              sym (
                ap (λ o. Option.map (λ c. record s { session = record s.session { client = c } }) o)
                  e)
              ∙ sym (ap (on_receive t s) r)
              ∙ h))
            (record {
              status = inl r;
              unsent = refl;
              client = receive-emptied t s.session.client d e;
              added = forward s.session.client t;
              grows = ap (λ c. c.to_web_socket) (receive-forward t s.session.client d e);
            })
    ]

    kept-Left :
        (cause : Option Text) (s u : Loop W)
        → (u.status ≡ closing cause) ⊎ ((u.status ≡ finished cause) × (u.inbox_closed ≡ true))
        → sent u.session.world ≡ sent s.session.world
        → u.session.client ≡ s.session.client
        → Left sent cause s u
    kept-Left cause s u status unsent client = record {
      status = status;
      unsent = unsent;
      client = ap emptied client;
      added = [];
      grows = ap (λ c. c.to_web_socket) client ∙ sym (append-nil _);
    }

    drained-Left :
        (cause : Option Text) (s u : Loop W) (inbox : List Message)
        → s.status ≡ closing cause
        → on_drain socket cause s inbox ≡ some u
        → Left sent cause s u
    unfolding on_drain
    drained-Left cause s u [] r h =
        kept-Left cause s u (inr (ground arith, ground arith))
          (ground (arith, remove_unsent s.session.world)) (ground arith)
    drained-Left cause s u (m ∷ inbox) r h =
        kept-Left cause s u (inl (ground arith)) (ground arith) (ground arith)

    elsewhere-Left :
        (cause : Option Text) (s u : Loop W) (f : W → W)
        → (s.status ≡ closing cause) ⊎ ((s.status ≡ finished cause) × (s.inbox_closed ≡ true))
        → ((w : W) → sent (f w) ≡ sent w)
        → some (record s { session = record s.session { world = f s.session.world } }) ≡ some u
        → Left sent cause s u
    elsewhere-Left cause s u f status q h = subst (Left sent cause s) (some-injective _ _ h) (
        kept-Left cause s (record s { session = record s.session { world = f s.session.world } })
          status (q s.session.world) refl)

    stuck-Left :
        (cause : Option Text) (event : Event W) (s u : Loop W) (status : Status)
        → s.status ≡ status
        → step_main I peer socket event s status ≡ none
        → step_main I peer socket event s s.status ≡ some u
        → Left sent cause s u
    stuck-Left cause event s u status r stuck h =
        absurd (none-some (sym (ap (step_main I peer socket event s) r ∙ stuck) ∙ h))

    closing-Left :
        (cause : Option Text) (event : Event W) (s u : Loop W)
        → IsOwn sent event
        → s.status ≡ closing cause
        → step I peer socket event s ≡ some u
        → Left sent cause s u
    unfolding step on_read on_end
    closing-Left cause (receives t) s u q r h = received-Left cause s u t r h
    closing-Left cause (reads m) s u q r h =
        kept-Left cause s u (inl (ground arith)) (ground arith) (ground arith)
    closing-Left cause ends_reading s u q r h =
        kept-Left cause s u (inl (ground arith)) (ground arith) (ground arith)
    closing-Left cause drains s u q r h =
        drained-Left cause s u s.inbox r (sym (ap (step_main I peer socket drains s) r) ∙ h)
    closing-Left cause (elsewhere f) s u q r h = elsewhere-Left cause s u f (inl r) q h
    closing-Left cause writes s u q r h = stuck-Left cause writes s u (closing cause) r refl h
    closing-Left cause pings s u q r h = stuck-Left cause pings s u (closing cause) r refl h
    closing-Left cause handles s u q r h = stuck-Left cause handles s u (closing cause) r refl h
    closing-Left cause loads s u q r h = stuck-Left cause loads s u (closing cause) r refl h

    finished-Left :
        (cause : Option Text) (event : Event W) (s u : Loop W)
        → IsOwn sent event
        → s.status ≡ finished cause
        → s.inbox_closed ≡ true
        → step I peer socket event s ≡ some u
        → Left sent cause s u
    unfolding step on_receive on_read on_end
    finished-Left cause (receives t) s u q r c h =
        absurd (none-some (sym (ap (on_receive t s) r) ∙ h))
    finished-Left cause (reads m) s u q r c h = absurd (ground arith)
    finished-Left cause ends_reading s u q r c h = absurd (ground arith)
    finished-Left cause (elsewhere f) s u q r c h = elsewhere-Left cause s u f (inr (r, c)) q h
    finished-Left cause drains s u q r c h = stuck-Left cause drains s u (finished cause) r refl h
    finished-Left cause writes s u q r c h = stuck-Left cause writes s u (finished cause) r refl h
    finished-Left cause pings s u q r c h = stuck-Left cause pings s u (finished cause) r refl h
    finished-Left cause handles s u q r c h = stuck-Left cause handles s u (finished cause) r refl h
    finished-Left cause loads s u q r c h = stuck-Left cause loads s u (finished cause) r refl h

    step-Left :
        (cause : Option Text) (event : Event W) (s u : Loop W)
        → IsOwn sent event
        → (s.status ≡ closing cause) ⊎ ((s.status ≡ finished cause) × (s.inbox_closed ≡ true))
        → step I peer socket event s ≡ some u
        → Left sent cause s u
    step-Left cause event s u q (inl r) h = closing-Left cause event s u q r h
    step-Left cause event s u q (inr (r, c)) h = finished-Left cause event s u q r c h

    -- After the main loop has left, with or without a panic, whatever else happens: nothing is
    -- sent, the subscriptions stay, the channel only grows, and Close, where it ends, ends
    -- after the reader has; where RemoveAgent and other processes do not write to the web
    -- socket.
    pub run-Left :
        (cause : Option Text) (events : List (Event W)) (s u : Loop W)
        → All (IsOwn sent) events
        → (s.status ≡ closing cause) ⊎ ((s.status ≡ finished cause) × (s.inbox_closed ≡ true))
        → run I peer socket events s ≡ some u
        → Left sent cause s u
    run-Left cause [] s u q r h =
        subst (Left sent cause s) (run-nil I peer socket s u h) (kept-Left cause s s r refl refl)
    run-Left cause (event ∷ events) s u q r h =
        let (t, first, rest) = run-cons I peer socket event events s u h in
        let one = step-Left cause event s t q.0 r first in
        let more = run-Left cause events t u q.1 one.status rest in
        record {
          status = more.status;
          unsent = more.unsent ∙ one.unsent;
          client = more.client ∙ one.client;
          added = one.added ++ more.added;
          grows =
              more.grows
              ∙ ap (λ l. l ++ more.added) one.grows
              ∙ append_assoc s.session.client.to_web_socket one.added more.added;
        }

    full :
        (l a : List Text)
        → ltb (length l) buffer_length ≡ false
        → ltb (length (l ++ a)) buffer_length ≡ false
    full l a h = ground (arith, length-append l a)

    plain_waits :
        (t : Text) (c : SynkClient)
        → IsObjectText t
        → ltb (length c.to_web_socket) buffer_length ≡ false
        → receive t c ≡ none
    unfolding enqueue
    plain_waits t c o h = receive_plain t c o ∙ ground arith

    plain_stuck :
        (t : Text) (u : Loop W) (status : Status)
        → IsObjectText t
        → ltb (length u.session.client.to_web_socket) buffer_length ≡ false
        → on_receive t u status ≡ none
    unfolding on_receive
    plain_stuck t u (finished cause) o h = refl
    plain_stuck t u status o h = rw (plain_waits t u.session.client o h) refl

    -- If the channel is full when the main loop leaves, then a call of Receive with a message
    -- without a header never goes on, whatever else happens, where RemoveAgent and other
    -- processes do not write to the web socket.
    pub run-receives :
        (cause : Option Text) (events : List (Event W)) (s u : Loop W) (t : Text)
        → All (IsOwn sent) events
        → s.status ≡ closing cause
        → ltb (length s.session.client.to_web_socket) buffer_length ≡ false
        → IsObjectText t
        → run I peer socket events s ≡ some u
        → step I peer socket (receives t) u ≡ none
    unfolding step
    run-receives cause events s u t q r is_full o h =
        let left = run-Left cause events s u q (inl r) h in
        plain_stuck t u u.status o (
          ap (λ l. ltb (length l) buffer_length) left.grows
          ∙ full s.session.client.to_web_socket left.added is_full)
