-- ===== src/MainLoop/Order.antt =====
-- What a browser is sent, and in which order.
use synk.Base.{
  Text, Option, Option-cases, none, some, List, [], ◌∷◌, ◌++◌, ◌≡◌, refl, sym, ap, subst, ◌∙◌, inl,
  inr, arith, append_assoc, append-nil, text_eq,
}
use mathlib.Core.Option.{some-injective}
use synk.Base.Dict
use synk.Object.{Object}
use synk.Client.{SynkClient, Peer, Message, receive, receive_header, enqueue}
use synk.Client.Subscribe.{IsPeer}
use synk.MainLoop.{
  Socket, running, Loop, Event, receives, reads, ends_reading, writes, pings, handles, loads,
  drains, elsewhere, on_receive, on_read, on_end, on_write, after_write, step_main, step,
}

-- The client with an empty channel
abbrev pub emptied : SynkClient → SynkClient
emptied c = record c { to_web_socket = [] }

-- What Receive puts into the channel: one text or none, whatever waits there.
unfoldable pub forward : SynkClient → Text → List Text
forward c t = elim (receive t (emptied c)) [ none ↦ [] | some d ↦ d.to_web_socket ]

pub receive-forward :
    (t : Text) (c d : SynkClient)
    → receive t c ≡ some d
    → d ≡ record c { to_web_socket = c.to_web_socket ++ forward c t }
unfolding receive receive_header enqueue forward Dict.contains
receive-forward t c d h = ground (arith, append-nil c.to_web_socket)

-- What Receive leaves of the client but its channel
pub receive-emptied : (t : Text) (c d : SynkClient) → receive t c ≡ some d → emptied d ≡ emptied c
receive-emptied t c d h = ap emptied (receive-forward t c d h)

module _ {W : Type 0} where
  -- The texts of the calls of Receive in a schedule, as they go into the channel of a client with
  -- these subscriptions
  unfoldable pub forwarded : SynkClient → List (Event W) → List Text
  unfolding forward
  forwarded c [] = []
  forwarded c (receives t ∷ events) = forward c t ++ forwarded c events
  forwarded c (event ∷ events) = forwarded c events

module _ {W : Type 0} (sent : W → List Text) where
  -- The main loop takes no message of the browser, and nobody else writes to the web socket.
  abbrev pub IsQuiet : Event W → Type 0
  IsQuiet handles = ⊥
  IsQuiet (elsewhere f) = (w : W) → sent (f w) ≡ sent w
  IsQuiet _ = Unit

pub none-some : {A : Type 0} {a : A} → ◌≡◌ {A = Option A} none (some a) → ⊥
none-some h = ground arith

module _ {O D W : Type 0} (I : Object O D) (peer : Peer O W) (socket : Socket W)
    (sent : W → List Text) where
  -- The web socket works: no write and no ping fails, and a ping is not a message.
  pub record IsLive : Type 0 where
    pub writes_ok : (t : Text) (w : W) → (peer.write_message t w).0 ≡ none
    pub pings_ok : (w : W) → (socket.ping w).0 ≡ none
    pub sent-ping : (w : W) → sent (socket.ping w).1 ≡ sent w

  -- What the browser has been sent or will be, of what is in the channel.
  abbrev pub backlog : Loop W → List Text
  backlog s = sent s.session.world ++ s.session.client.to_web_socket

  -- The main loop is before its select, and nothing but the channel has changed.
  pub record Goes (base : SynkClient) (s t : Loop W) (out : List Text) : Type 0 where
    pub status : t.status ≡ running
    pub client : emptied t.session.client ≡ base
    pub backlog : backlog t ≡ backlog s ++ out

  module _ (laws : IsPeer peer sent) (live : IsLive) where
    -- The client has received a text.
    received-Goes :
        (s : Loop W) (x : Text) (d : SynkClient)
        → s.status ≡ running
        → receive x s.session.client ≡ some d
        → Goes
            (emptied s.session.client)
            s
            (record s { session = record s.session { client = d } })
            (forward s.session.client x)
    received-Goes s x d r h = record {
      status = r;
      client = receive-emptied x s.session.client d h;
      backlog =
          ap (λ c. sent s.session.world ++ c.to_web_socket) (receive-forward x s.session.client d h)
          ∙ sym (
              append_assoc (sent s.session.world) s.session.client.to_web_socket
                (forward s.session.client x));
    }

    receives-Goes :
        (s t : Loop W) (x : Text)
        → s.status ≡ running
        → on_receive x s s.status ≡ some t
        → Goes (emptied s.session.client) s t (forward s.session.client x)
    unfolding on_receive
    receives-Goes s t x r h = elim (Option-cases (receive x s.session.client)) [
      | inl no_room ↦ absurd (ground arith)
      | inr (d, e) ↦
          subst (λ u. Goes (emptied s.session.client) s u (forward s.session.client x))
            (ground arith) (received-Goes s x d r e)
    ]

    -- Nothing has changed in the session or the status.
    kept-Goes :
        (s t : Loop W)
        → s.status ≡ running
        → t.status ≡ s.status
        → t.session ≡ s.session
        → Goes (emptied s.session.client) s t []
    kept-Goes s t r same session = record {
      status = same ∙ r;
      client = ap (λ x. emptied x.client) session;
      backlog =
          ap (λ x. sent x.world ++ x.client.to_web_socket) session ∙ sym (append-nil (backlog s));
    }

    reads-Goes :
        (s t : Loop W) (m : Message)
        → s.status ≡ running
        → on_read m s ≡ some t
        → Goes (emptied s.session.client) s t []
    unfolding on_read
    reads-Goes s t m r h = kept-Goes s t r (ground arith) (ground arith)

    ends-Goes :
        (s t : Loop W)
        → s.status ≡ running
        → on_end s ≡ some t
        → Goes (emptied s.session.client) s t []
    unfolding on_end
    ends-Goes s t r h = kept-Goes s t r (ground arith) (ground arith)

    wrote-Goes :
        (s : Loop W) (x : Text) (queue : List Text)
        → s.status ≡ running
        → s.session.client.to_web_socket ≡ x ∷ queue
        → (t : Loop W)
        → t ≡ record s {
          session = record {
            client = record s.session.client { to_web_socket = queue };
            world = (peer.write_message x s.session.world).1;
          };
        }
        → Goes (emptied s.session.client) s t []
    wrote-Goes s x queue r e t same =
        subst (λ u. Goes (emptied s.session.client) s u []) (sym same)
          (record {
            status = r;
            client = refl;
            backlog =
                ap (λ l. l ++ queue)
                  (laws.sent-write_message x s.session.world (live.writes_ok x s.session.world))
                ∙ append_assoc (sent s.session.world) (x ∷ []) queue
                ∙ ap (λ l. sent s.session.world ++ l) (sym e)
                ∙ sym (append-nil (backlog s));
          })

    writes-Goes :
        (s t : Loop W) (queue : List Text)
        → s.session.client.to_web_socket ≡ queue
        → s.status ≡ running
        → on_write I peer socket s queue ≡ some t
        → Goes (emptied s.session.client) s t []
    unfolding on_write after_write
    writes-Goes s t [] e r h = absurd (ground arith)
    writes-Goes s t (x ∷ queue) e r h =
        wrote-Goes s x queue r e t (ground (arith, live.writes_ok x s.session.world))

    pings-Goes :
        (s t : Loop W)
        → s.status ≡ running
        → some (after_write socket (socket.ping s.session.world) s) ≡ some t
        → Goes (emptied s.session.client) s t []
    unfolding after_write
    pings-Goes s t r h =
        let same : t
            ≡ record s { session = record s.session { world = (socket.ping s.session.world).1 } } =
          ground (arith, live.pings_ok s.session.world) in
        subst (λ u. Goes (emptied s.session.client) s u []) (sym same)
          (record {
            status = r;
            client = refl;
            backlog =
                ap (λ l. l ++ s.session.client.to_web_socket) (live.sent-ping s.session.world)
                ∙ sym (append-nil (backlog s));
          })

    elsewhere-Goes :
        (s t : Loop W) (f : W → W)
        → s.status ≡ running
        → ((w : W) → sent (f w) ≡ sent w)
        → some (record s { session = record s.session { world = f s.session.world } }) ≡ some t
        → Goes (emptied s.session.client) s t []
    elsewhere-Goes s t f r unsent h =
        subst (λ u. Goes (emptied s.session.client) s u []) (some-injective _ _ h)
          (record {
            status = r;
            client = refl;
            backlog =
                ap (λ l. l ++ s.session.client.to_web_socket) (unsent s.session.world)
                ∙ sym (append-nil (backlog s));
          })

    pub step-Goes :
        (event : Event W) (s t : Loop W)
        → IsQuiet sent event
        → s.status ≡ running
        → step I peer socket event s ≡ some t
        → Goes (emptied s.session.client) s t (forwarded s.session.client (event ∷ []))
    unfolding step forwarded
    step-Goes (receives x) s t q r h =
        rw (append-nil (forward s.session.client x)) (receives-Goes s t x r h)
    step-Goes (reads m) s t q r h = reads-Goes s t m r h
    step-Goes ends_reading s t q r h = ends-Goes s t r h
    step-Goes writes s t q r h =
        writes-Goes s t s.session.client.to_web_socket refl r
          (sym (ap (step_main I peer socket writes s) r) ∙ h)
    step-Goes pings s t q r h = pings-Goes s t r (sym (ap (step_main I peer socket pings s) r) ∙ h)
    step-Goes handles s t q r h = absurd q
    step-Goes loads s t q r h =
        absurd (none-some (sym (ap (step_main I peer socket loads s) r) ∙ h))
    step-Goes (elsewhere f) s t q r h = elsewhere-Goes s t f r q h
    step-Goes drains s t q r h =
        absurd (none-some (sym (ap (step_main I peer socket drains s) r) ∙ h))
