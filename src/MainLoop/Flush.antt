-- ===== src/MainLoop/Flush.antt =====
-- The main loop writes what is in the channel to the web socket.
use synk.Base.{
  Text, none, some, List, [], ◌∷◌, ◌++◌, length, ◌≡◌, refl, sym, ap, ◌∙◌, append_assoc, append-nil,
  arith,
}
use synk.Result.{Error}
use synk.Object.{Object}
use synk.Client.{Peer}
use synk.Client.Subscribe.{IsPeer}
use synk.MainLoop.{Socket, running, Loop, writes, after_write, on_write, step_main, step, run}
use synk.MainLoop.Order.{IsLive}
use synk.MainLoop.Runs.{run-next}
use synk.MainLoop.Close.{repeat}

module _ {O D W : Type 0} (I : Object O D) (peer : Peer O W) (socket : Socket W)
    (sent : W → List Text) where
  -- One message has been written.
  abbrev written : Text → List Text → Loop W → Loop W
  written t queue s = record s {
    session = record {
      client = record s.session.client { to_web_socket = queue };
      world = (peer.write_message t s.session.world).1;
    };
  }

  after_write-ok :
      (r : Error × W) (s : Loop W)
      → r.0 ≡ none
      → after_write socket r s ≡ record s { session = record s.session { world = r.1 } }
  unfolding after_write
  after_write-ok (none, w) s h = refl
  after_write-ok (some e, w) s h = absurd (ground arith)

  -- The channel is empty, all that was in it has been sent, and the main loop goes on.
  pub record Flushed (s u : Loop W) : Type 0 where
    pub status : u.status ≡ running
    pub client : u.session.client ≡ record s.session.client { to_web_socket = [] }
    pub all_sent : sent u.session.world ≡ sent s.session.world ++ s.session.client.to_web_socket

  module _ (laws : IsPeer peer sent) (live : IsLive I peer socket sent) where
    step-writes :
        (t : Text) (queue : List Text) (s : Loop W)
        → s.status ≡ running
        → s.session.client.to_web_socket ≡ t ∷ queue
        → step I peer socket writes s ≡ some (written t queue s)
    unfolding step step_main on_write
    step-writes t queue s r e =
        ap (step_main I peer socket writes s) r
        ∙ ap (on_write I peer socket s) e
        ∙ ap some (
            after_write-ok (peer.write_message t s.session.world)
              (record s {
                session = record s.session {
                  client = record s.session.client { to_web_socket = queue };
                };
              })
              (live.writes_ok t s.session.world))

    -- As many steps as messages are in the channel write them all, in order.
    pub writes-Flushed :
        (queue : List Text) (s : Loop W)
        → s.status ≡ running
        → s.session.client.to_web_socket ≡ queue
        → (u : Loop W) × (run I peer socket (repeat (length queue) writes) s ≡ some u) × Flushed s u
    unfolding repeat run
    writes-Flushed [] s r e = (
      s,
      refl,
      record {
        status = r;
        client = ap (λ q. record s.session.client { to_web_socket = q }) e;
        all_sent = sym (ap (λ q. sent s.session.world ++ q) e ∙ append-nil (sent s.session.world));
      },
    )
    writes-Flushed (t ∷ queue) s r e =
        let next = written t queue s in
        let (u, goes, rest) = writes-Flushed queue next r refl in
        (
          u,
          run-next I peer socket writes (repeat (length queue) writes) s next
                (step-writes t queue s r e)
              ∙ goes,
          record {
            status = rest.status;
            client = rest.client;
            all_sent =
                rest.all_sent
                ∙ ap (λ l. l ++ queue)
                    (laws.sent-write_message t s.session.world (live.writes_ok t s.session.world))
                ∙ append_assoc (sent s.session.world) (t ∷ []) queue
                ∙ ap (λ l. sent s.session.world ++ l) (sym e);
          },
        )
