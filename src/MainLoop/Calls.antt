-- ===== src/MainLoop/Calls.antt =====
-- A message that the main loop handles without another event in between.
use synk.Base.{Bool, none, some, List, [], ◌∷◌, ◌≡◌, refl, ap, ◌∙◌}
use synk.Result.{Error, Outcome, returns, panics, continue, pure}
use synk.Object.{Object}
use synk.Client.{
  Session, Peer, UpdateSubscription, Message, update, change_subscription, send_state,
  update_subscription, handle_message,
}
use synk.MainLoop.{
  Socket, Status, running, loading, Loop, handles, loads, leave, after_call, on_handle, step_main,
  step, run,
}
use synk.MainLoop.Runs.{run-next}

module _ {O D W : Type 0} (I : Object O D) (peer : Peer O W) (socket : Socket W) where
  -- The error of the call makes no difference.
  after_call-same :
      (c : Outcome Error × Session W) (session session' : Session W) (inbox : List Message)
      (closed : Bool) (status status' : Status)
      → after_call socket c
          (record { session = session; inbox = inbox; inbox_closed = closed; status = status })
        ≡ after_call socket
            (continue c.0 (λ _. pure {A = Error} none) c.1)
            (record { session = session'; inbox = inbox; inbox_closed = closed; status = status' })
  unfolding after_call leave
  after_call-same (returns e, t) session session' inbox closed status status' = refl
  after_call-same (panics e, t) session session' inbox closed status status' = refl

  -- Where nothing happens between the change of the subscription and the call of Load, the two
  -- steps of the main loop do what handleMessage does, with its panic if it has one.
  pub handles-loads_lem :
      (msg : UpdateSubscription) (inbox : List Message) (s : Loop W)
      → s.status ≡ running
      → s.inbox ≡ update msg ∷ inbox
      → run I peer socket (handles ∷ loads ∷ []) s
        ≡ some (
            after_call socket
              (handle_message I peer (update msg) s.session)
              (record s { inbox = inbox }))
  unfolding run step step_main on_handle handle_message update_subscription
  handles-loads_lem msg inbox s r next =
      let begun : Loop W = record s {
        session = change_subscription I peer msg s.session;
        inbox = inbox;
        status = loading msg.add;
      } in
      let taken = ap (step_main I peer socket handles s) r ∙ ap (on_handle I peer socket s) next in
      run-next I peer socket handles (loads ∷ []) s begun taken
      ∙ ap some (
          after_call-same (send_state I peer msg.add begun.session) begun.session s.session inbox
            s.inbox_closed begun.status s.status)
