-- ===== src/Client/Delivery.antt =====
-- From `Modify` to a client's web socket: what a client is told when an object changes.
use synk.Base.{
  ◌<◌, Text, true, false, Option, none, some, List, [], ◌∷◌, ◌++◌, length, ◌≡◌, ◌≢◌, refl, ◌∙◌,
  arith, if◌then◌else◌, text_eq, Bool-cases, inl, inr,
}
use synk.Base.Dict
use synk.Base.Index.{Lacks}
use mathlib.Core.Logic.{if_pos, if_neg}
use synk.Result.{ok, Error, returns}
use synk.Object.{Object, IsObject}
use synk.Service.{Service, IsService}
use synk.Wire.Message.{
  IsObjectText, marshal_add, marshal_mod, marshal_add-IsObjectText, marshal_mod-IsObjectText,
}
use synk.Mongo.{Bson, Session, modify, with_header}
use synk.Mongo.Notices.{mod_notice, add_notice, moved_key, Notices, stays, moves}
use synk.Mongo.Modify.{modify-Modified}
use synk.Client.{SynkClient, enqueue, receive, buffer_length}
use synk.Client.Receive.{receive_plain, receive-with_header}

-- The client after one message on its channel
abbrev pub with_message : Text → SynkClient → SynkClient
with_message bytes client = record client { to_web_socket = client.to_web_socket ++ bytes ∷ [] }

-- Redis hands a message on a channel to the clients that have subscribed to the channel. The agents
-- that do this are not in the repository: they are taken to hand over every message, at once and in
-- the order of publishing.
unfoldable pub deliver : List (Text × Text) → SynkClient → Option SynkClient
deliver [] client = some client
deliver ((channel, bytes) ∷ out) client =
    elim (if Dict.contains channel client.subscriptions
      then receive bytes client
      else some client) [ none ↦ none | some next ↦ deliver out next ]

pub enqueue_room :
    (bytes : Text) (client : SynkClient)
    → length client.to_web_socket < buffer_length
    → enqueue bytes client ≡ some (with_message bytes client)
unfolding enqueue
enqueue_room bytes client h = ground arith

pub deliver-subscribed :
    (channel bytes : Text) (out : List (Text × Text)) (client next : SynkClient)
    → Dict.contains channel client.subscriptions ≡ true
    → receive bytes client ≡ some next
    → deliver ((channel, bytes) ∷ out) client ≡ deliver out next
unfolding deliver
deliver-subscribed channel bytes out client next h r = rw (h, deliver) (rw r)

pub deliver-skipped :
    (channel bytes : Text) (out : List (Text × Text)) (client : SynkClient)
    → Dict.contains channel client.subscriptions ≡ false
    → deliver ((channel, bytes) ∷ out) client ≡ deliver out client
unfolding deliver
deliver-skipped channel bytes out client h = rw (h, deliver)

deliver-nothing : (client : SynkClient) → deliver [] client ≡ some client
unfolding deliver
deliver-nothing client = refl

module _ {O D : Type 0} (I : Object O D) where
  -- A client learns that `o` has become `p` in one of three ways: by the diff if it has subscribed
  -- where the object was; else by the whole object if it has subscribed where the object is; else
  -- it is told nothing.
  pub data Informed (o p : O) (client next : SynkClient) : Type 0 where
    by_diff :
        (bytes : Text)
        → Dict.contains (I.get_prev_sub_key o) client.subscriptions ≡ true
        → marshal_mod I.marshal (mod_notice I o p (moved_key I o)) ≡ ok bytes
        → next ≡ with_message bytes client
        → Informed o p client next
    by_state :
        (bytes : Text)
        → Dict.contains (I.get_prev_sub_key o) client.subscriptions ≡ false
        → Dict.contains (I.get_sub_key o) client.subscriptions ≡ true
        → marshal_add I.marshal (add_notice I o p) ≡ ok bytes
        → next ≡ with_message bytes client
        → Informed o p client next
    not_told :
        Dict.contains (I.get_prev_sub_key o) client.subscriptions ≡ false
        → Dict.contains (I.get_sub_key o) client.subscriptions ≡ false
        → next ≡ client
        → Informed o p client next

  deliver-stays :
      (o p : O) (client : SynkClient) (b : Text)
      → length client.to_web_socket < buffer_length
      → I.get_sub_key o ≡ I.get_prev_sub_key o
      → marshal_mod I.marshal (mod_notice I o p []) ≡ ok b
      → (next : SynkClient) × (deliver ((I.get_prev_sub_key o, b) ∷ []) client ≡ some next)
        × Informed o p client next
  deliver-stays o p client b room same marshalled =
      let plain = receive_plain b client (marshal_mod-IsObjectText I.marshal _ b marshalled) in
      elim (Bool-cases (Dict.contains (I.get_prev_sub_key o) client.subscriptions)) [
        | inl t ↦ (
          with_message b client,
          deliver-subscribed _ b [] client _ t (plain ∙ enqueue_room b client room)
              ∙ deliver-nothing _,
          by_diff b t (rw (if_pos _ same) marshalled) refl,
        )
        | inr f ↦ (
          client,
          deliver-skipped _ b [] client f ∙ deliver-nothing client,
          not_told f (rw same f) refl,
        )
      ]

  -- The message behind the header, after the message with the diff
  deliver-header :
      (psk nsk c : Text) (client : SynkClient)
      → Lacks b'{' psk
      → IsObjectText c
      → Dict.contains psk client.subscriptions ≡ true
      → deliver ((nsk, with_header psk c) ∷ []) client ≡ some client
  deliver-header psk nsk c client lacks h t =
      elim (Bool-cases (Dict.contains nsk client.subscriptions)) [
        | inl t' ↦
            deliver-subscribed nsk _ [] client client t'
              (receive-with_header psk c client lacks h ∙ (ground arith))
            ∙ deliver-nothing client
        | inr f ↦ deliver-skipped nsk _ [] client f ∙ deliver-nothing client
      ]

  deliver-moves :
      (o p : O) (client : SynkClient) (b c : Text)
      → length client.to_web_socket < buffer_length
      → I.get_sub_key o ≢ I.get_prev_sub_key o
      → Lacks b'{' (I.get_prev_sub_key o)
      → marshal_mod I.marshal (mod_notice I o p (I.get_sub_key o)) ≡ ok b
      → marshal_add I.marshal (add_notice I o p) ≡ ok c
      → (next : SynkClient) × (deliver
            ((I.get_prev_sub_key o, b)
              ∷ (I.get_sub_key o, with_header (I.get_prev_sub_key o) c)
              ∷ [])
            client
          ≡ some next)
        × Informed o p client next
  deliver-moves o p client b c room differ lacks modded added =
      let plain = receive_plain b client (marshal_mod-IsObjectText I.marshal _ b modded) in
      let text = marshal_add-IsObjectText I.marshal _ c added in
      elim (Bool-cases (Dict.contains (I.get_prev_sub_key o) client.subscriptions)) [
        | inl t ↦ (
          with_message b client,
          deliver-subscribed _ b _ client _ t (plain ∙ enqueue_room b client room)
              ∙ deliver-header _ _ c (with_message b client) lacks text t,
          by_diff b t (rw (if_neg _ differ) modded) refl,
        )
        | inr f ↦ elim (Bool-cases (Dict.contains (I.get_sub_key o) client.subscriptions)) [
          | inl t ↦ (
            with_message c client,
            deliver-skipped _ b _ client f
                ∙ deliver-subscribed _ _ [] client _ t
                    (receive-with_header _ c client lacks text ∙ rw f (enqueue_room c client room))
                ∙ deliver-nothing _,
            by_state c f t added refl,
          )
          | inr g ↦ (
            client,
            deliver-skipped _ b _ client f
                ∙ deliver-skipped _ _ [] client g
                ∙ deliver-nothing client,
            not_told f g refl,
          )
        ]
      ]

  pub Notices-deliver :
      (o p : O) (out : List (Text × Text)) (client : SynkClient)
      → length client.to_web_socket < buffer_length
      → Lacks b'{' (I.get_prev_sub_key o)
      → Notices I o p out
      → (next : SynkClient) × (deliver out client ≡ some next) × Informed o p client next
  Notices-deliver o p out client room lacks (stays b same modded e) =
      rw e (deliver-stays o p client b room same modded)
  Notices-deliver o p out client room lacks (moves b c differ modded added e) =
      rw e (deliver-moves o p client b c room differ lacks modded added)

-- If Modify returns, a client with room in its channel is informed by what Modify published: the
-- diff, the whole object or nothing, as the client has subscribed to where the object was, only to
-- where it is, or to neither. The key of where it was must have no brace.
pub modify-Informed :
    {O D W Doc : Type 0} (I : Object O D) (S : Service W Doc) (bson : Bson O Doc)
    → IsObject I
    → IsService S
    → (s : Session O W) (e : Error) (client : SynkClient) → (modify I S bson s).0 ≡ returns e
    → length client.to_web_socket < buffer_length
    → Lacks b'{' (I.get_prev_sub_key s.object)
    → let t = (modify I S bson s).1 in
      (out : List (Text × Text)) × (S.published t.world ≡ S.published s.world ++ out)
      × ((next : SynkClient) × (deliver out client ≡ some next)
          × Informed I s.object t.object client next)
modify-Informed I S bson law ops s e client h room lacks =
    let m = (modify-Modified I S bson law ops s e h).1 in
    (m.out, m.published, Notices-deliver I _ _ m.out client room lacks m.notices)
