-- ===== src/MainLoop/Close.antt =====
-- Close: it ends once the reader has ended, and what is left undone then.
use synk.Base.{
  ℕ, zero, suc, Text, true, Option, some, List, [], ◌∷◌, length, ◌≡◌, refl, ap, ◌∙◌, arith,
}
use synk.Object.{Object}
use synk.Client.{Peer, Message}
use synk.MainLoop.{Socket, closing, finished, Loop, drains, on_drain, step_main, step, run}
use synk.MainLoop.Runs.{run-next}

-- The same, `n` times
unfoldable pub repeat : {A : Type 0} → ℕ → A → List A
repeat zero x = []
repeat (suc n) x = x ∷ repeat n x

module _ {W : Type 0} (socket : Socket W) where
  -- What Close leaves
  abbrev pub closed_down : Option Text → Loop W → Loop W
  closed_down cause s = record s {
    session = record s.session { world = socket.remove_agent s.session.world };
    inbox = [];
    status = finished cause;
  }

module _ {O D W : Type 0} (I : Object O D) (peer : Peer O W) (socket : Socket W) where
  step-drains :
      (cause : Option Text) (s : Loop W) (inbox : List Message)
      → s.status ≡ closing cause
      → s.inbox ≡ inbox
      → step I peer socket drains s ≡ on_drain socket cause s inbox
  unfolding step step_main
  step-drains cause s inbox r e =
      ap (step_main I peer socket drains s) r ∙ ap (on_drain socket cause s) e

  -- Close ends: once the reader has closed its channel, as many steps as messages wait there and
  -- one more drain it, and the agent is removed.
  pub drains-finished :
      (cause : Option Text) (inbox : List Message) (s : Loop W)
      → s.status ≡ closing cause
      → s.inbox_closed ≡ true
      → s.inbox ≡ inbox
      → run I peer socket (repeat (suc (length inbox)) drains) s ≡ some (closed_down socket cause s)
  unfolding repeat run on_drain
  drains-finished cause [] s r closed e =
      run-next I peer socket drains [] s (closed_down socket cause s)
        (step-drains cause s [] r e ∙ ground arith)
  drains-finished cause (m ∷ inbox) s r closed e =
      run-next I peer socket drains (repeat (suc (length inbox)) drains) s
        (record s { inbox = inbox }) (step-drains cause s (m ∷ inbox) r e)
      ∙ drains-finished cause inbox (record s { inbox = inbox }) r closed refl
