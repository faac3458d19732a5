-- ===== src/MainLoop/Arrive.antt =====
-- From Modify to the browser: what is published arrives at the client, and is written.
use synk.Base.{
  Text, Bool, true, false, Bool-cases, Option-cases, none, some, List, [], ◌∷◌, ◌++◌, length, ◌<◌,
  ◌≡◌, refl, sym, ap, ◌∙◌, inl, inr, if◌then◌else◌, text_eq,
}
use mathlib.Core.Option
use mathlib.Core.Option.{some-injective}
use synk.Base.Dict
use synk.Base.Dict.{Dict}
use synk.Base.Index.{Lacks}
use synk.Result.{Error, returns}
use synk.Object.{Object, IsObject}
use synk.Service.{Service, IsService}
use synk.Mongo.{Bson, modify}
use synk.Mongo
use synk.Client.{Peer, SynkClient, receive, buffer_length}
use synk.Client.Subscribe.{IsPeer}
use synk.Client.Delivery.{deliver, deliver-subscribed, deliver-skipped, Informed, modify-Informed}
use synk.MainLoop.{Socket, running, Loop, Event, receives, writes, on_receive, step, run}
use synk.MainLoop.Order.{IsLive, receive-emptied, none-some}
use synk.MainLoop.Runs.{run-next}
use synk.MainLoop.Close.{repeat}
use synk.MainLoop.Flush.{writes-Flushed}

-- The calls of Receive for what is published, by the client's subscriptions
unfoldable pub arrivals : {W : Type 0} → List (Text × Text) → Dict Text Bool → List (Event W)
arrivals [] subs = []
arrivals ((channel, bytes) ∷ out) subs =
    let rest = arrivals out subs in
    if Dict.contains channel subs then receives bytes ∷ rest else rest

module _ {W : Type 0} where
  arrivals-there :
      (channel bytes : Text) (out : List (Text × Text)) (subs : Dict Text Bool)
      → Dict.contains channel subs ≡ true
      → arrivals {W = W} ((channel, bytes) ∷ out) subs ≡ receives bytes ∷ arrivals out subs
  unfolding arrivals
  arrivals-there channel bytes out subs h = rw (h, arrivals) refl

  arrivals-absent :
      (channel bytes : Text) (out : List (Text × Text)) (subs : Dict Text Bool)
      → Dict.contains channel subs ≡ false
      → arrivals {W = W} ((channel, bytes) ∷ out) subs ≡ arrivals out subs
  unfolding arrivals
  arrivals-absent channel bytes out subs h = rw (h, arrivals) refl

deliver-waits :
    (channel bytes : Text) (out : List (Text × Text)) (client : SynkClient)
    → Dict.contains channel client.subscriptions ≡ true
    → receive bytes client ≡ none
    → deliver ((channel, bytes) ∷ out) client ≡ none
unfolding deliver
deliver-waits channel bytes out client h r = rw (h, deliver) (rw r refl)

module _ {O D W : Type 0} (I : Object O D) (peer : Peer O W) (socket : Socket W) where
  with_client : Loop W → SynkClient → Loop W
  with_client s c = record s { session = record s.session { client = c } }

  step-receives :
      (t : Text) (s : Loop W) (d : SynkClient)
      → s.status ≡ running
      → receive t s.session.client ≡ some d
      → step I peer socket (receives t) s ≡ some (with_client s d)
  unfolding step on_receive with_client
  step-receives t s d r h =
      ap (on_receive t s) r
      ∙ ap (Option.map (λ c. record s { session = record s.session { client = c } })) h

  -- What is delivered arrives.
  arrivals-deliver :
      (out : List (Text × Text)) (subs : Dict Text Bool) (s : Loop W) (next : SynkClient)
      (rest : List (Event W))
      → s.status ≡ running
      → s.session.client.subscriptions ≡ subs
      → deliver out s.session.client ≡ some next
      → run I peer socket (arrivals out subs ++ rest) s
        ≡ run I peer socket rest (with_client s next)
  unfolding arrivals deliver with_client
  arrivals-deliver [] subs s next rest r same h =
      ap (λ c. run I peer socket rest (with_client s c)) (some-injective _ _ h)
  arrivals-deliver ((channel, bytes) ∷ out) subs s next rest r same h =
      elim (Bool-cases (Dict.contains channel subs)) [
        | inr absent ↦
            let skipped =
              deliver-skipped channel bytes out s.session.client
                (ap (Dict.contains channel) same ∙ absent) in
            ap (λ l. run I peer socket (l ++ rest) s)
              (arrivals-absent channel bytes out subs absent)
            ∙ arrivals-deliver out subs s next rest r same (sym skipped ∙ h)
        | inl there ↦
            let held = ap (Dict.contains channel) same ∙ there in
            elim (Option-cases (receive bytes s.session.client)) [
              | inl waits ↦ absurd (
                  none-some (sym (deliver-waits channel bytes out s.session.client held waits) ∙ h))
              | inr (d, got) ↦
                  let went = deliver-subscribed channel bytes out s.session.client d held got in
                  let kept =
                    ap (λ c. c.subscriptions) (receive-emptied bytes s.session.client d got) in
                  ap (λ l. run I peer socket (l ++ rest) s)
                    (arrivals-there channel bytes out subs there)
                  ∙ run-next I peer socket (receives bytes) (arrivals out subs ++ rest) s
                      (with_client s d) (step-receives bytes s d r got)
                  ∙ arrivals-deliver out subs (with_client s d) next rest r (kept ∙ same)
                      (sym went ∙ h)
            ]
      ]

module _ {O D W : Type 0} (I : Object O D) (peer : Peer O W) (socket : Socket W)
    (sent : W → List Text) (laws : IsPeer peer sent) (live : IsLive I peer socket sent) where
  -- From Modify to the browser: if Modify returns, then what it has published, once it has
  -- arrived at a running client with room in its channel, which Redis hands what is published on
  -- the keys that it has subscribed to, and the main loop has written what is in the channel, has
  -- sent the browser what was in the channel and then the diff, the whole object or nothing, as
  -- the client has subscribed to where the object was, only to where it is, or to neither; where
  -- no write fails and the key of where the object was has no brace, for any object and service
  -- that keep their laws.
  pub modify-sent :
      {V Doc : Type 0} (S : Service V Doc) (bson : Bson O Doc)
      → IsObject I
      → IsService S
      → (m : Mongo.Session O V) (e : Error) (s : Loop W) → (modify I S bson m).0 ≡ returns e
      → s.status ≡ running
      → length s.session.client.to_web_socket < buffer_length
      → Lacks b'{' (I.get_prev_sub_key m.object)
      → let t = (modify I S bson m).1 in
        (out : List (Text × Text)) × (S.published t.world ≡ S.published m.world ++ out)
        × (next : SynkClient) × Informed I m.object t.object s.session.client next
        × (u : Loop W) × (run I peer socket
              (arrivals out s.session.client.subscriptions
                ++ repeat (length next.to_web_socket) writes)
              s
            ≡ some u)
        × (u.status ≡ running)
        × (sent u.session.world ≡ sent s.session.world ++ next.to_web_socket)
  unfolding with_client
  modify-sent S bson law ops m e s h r room lacks =
      let (out, published, told) =
        modify-Informed I S bson law ops m e s.session.client h room lacks in
      let (next, delivered, informed) = told in
      let arrived = with_client I peer socket s next in
      let (u, goes, flushed) =
        writes-Flushed I peer socket sent laws live next.to_web_socket arrived r refl in
      (
        out,
        published,
        next,
        informed,
        u,
        arrivals-deliver I peer socket out s.session.client.subscriptions s next
              (repeat (length next.to_web_socket) writes) r refl delivered
            ∙ goes,
        flushed.status,
        flushed.all_sent,
      )
