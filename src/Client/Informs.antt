-- ===== src/Client/Informs.antt =====
-- A delivery that goes on: what it has put in the client's channel, whether or not there was room
-- for more.
use synk.Base.{
  Text, true, some, List, [], ◌∷◌, ◌≡◌, ◌≢◌, refl, sym, ap, ◌∙◌, inl, inr, arith, text_eq,
  Bool-cases, Option, subst, none, if◌then◌else◌,
}
use mathlib.Core.Logic.{if_pos, if_neg}
use mathlib.Core.Option.{some-injective}
use synk.Base.Dict
use synk.Base.Index.{Lacks}
use synk.Result.{ok}
use synk.Object.{Object}
use synk.Wire.Message.{
  IsObjectText, marshal_add, marshal_mod, marshal_add-IsObjectText, marshal_mod-IsObjectText,
}
use synk.Mongo.{with_header}
use synk.Mongo.Notices.{mod_notice, add_notice, Notices, stays, moves}
use synk.Client.{SynkClient, enqueue, receive_header, receive}
use synk.Client.Receive.{receive_plain, receive-with_header}
use synk.Client.Delivery.{
  with_message, deliver, deliver-skipped, Informed, by_diff, by_state, not_told,
}

enqueue-eq-some :
    (bytes : Text) (client next : SynkClient)
    → enqueue bytes client ≡ some next
    → next ≡ with_message bytes client
unfolding enqueue
enqueue-eq-some bytes client next h = ground arith

deliver-nothing : (client next : SynkClient) → deliver [] client ≡ some next → next ≡ client
unfolding deliver
deliver-nothing client next h = ground arith

-- What a delivery to a subscriber has gone through
chain :
    (r : Option SynkClient) (out : List (Text × Text)) (next : SynkClient)
    → (elim r [ none ↦ none | some mid ↦ deliver out mid ]) ≡ some next
    → (mid : SynkClient) × (r ≡ some mid) × (deliver out mid ≡ some next)
chain none out next h = absurd (ground arith)
chain (some mid) out next h = (mid, refl, h)

deliver-first :
    (channel bytes : Text) (out : List (Text × Text)) (client next : SynkClient)
    → Dict.contains channel client.subscriptions ≡ true
    → deliver ((channel, bytes) ∷ out) client ≡ some next
    → (mid : SynkClient) × (receive bytes client ≡ some mid) × (deliver out mid ≡ some next)
unfolding deliver
deliver-first channel bytes out client next t h = chain (receive bytes client) out next (
    sym (
      ap
        (λ b. elim (if b then receive bytes client else some client) [
          | none ↦ none
          | some mid ↦ deliver out mid
        ])
        t)
    ∙ h)

receive-subscriptions :
    (bytes : Text) (client next : SynkClient)
    → receive bytes client ≡ some next
    → next.subscriptions ≡ client.subscriptions
unfolding receive receive_header enqueue
receive-subscriptions bytes client next h = ground arith

-- No delivery changes what the client has subscribed to.
pub deliver-subscriptions :
    (out : List (Text × Text)) (client next : SynkClient)
    → deliver out client ≡ some next
    → next.subscriptions ≡ client.subscriptions
deliver-subscriptions [] client next h = ap (λ c. c.subscriptions) (deliver-nothing client next h)
deliver-subscriptions ((channel, bytes) ∷ out) client next h =
    elim (Bool-cases (Dict.contains channel client.subscriptions)) [
      | inl t ↦
          let (mid, received, rest) = deliver-first channel bytes out client next t h in
          deliver-subscriptions out mid next rest ∙ receive-subscriptions bytes client mid received
      | inr f ↦
          deliver-subscriptions out client next
            (sym (deliver-skipped channel bytes out client f) ∙ h)
    ]

-- The first message has no header, and the client has subscribed to its channel.
deliver-plain :
    (channel bytes : Text) (out : List (Text × Text)) (client next : SynkClient)
    → Dict.contains channel client.subscriptions ≡ true
    → IsObjectText bytes
    → deliver ((channel, bytes) ∷ out) client ≡ some next
    → deliver out (with_message bytes client) ≡ some next
deliver-plain channel bytes out client next t text h =
    let (mid, received, rest) = deliver-first channel bytes out client next t h in
    let e = enqueue-eq-some bytes client mid (sym (receive_plain bytes client text) ∙ received) in
    subst (λ c. deliver out c ≡ some next) e rest

-- One message without a header on a channel
pub deliver-one :
    (channel bytes : Text) (client next : SynkClient)
    → IsObjectText bytes
    → deliver ((channel, bytes) ∷ []) client ≡ some next
    → next
      ≡ (if Dict.contains channel client.subscriptions then with_message bytes client else client)
deliver-one channel bytes client next text h =
    elim (Bool-cases (Dict.contains channel client.subscriptions)) [
      | inl t ↦ rw t (deliver-nothing _ next (deliver-plain channel bytes [] client next t text h))
      | inr f ↦
          rw f (deliver-nothing client next (sym (deliver-skipped channel bytes [] client f) ∙ h))
    ]

-- The message behind the header, to a client that has subscribed where the object was
deliver-behind :
    (psk nsk c : Text) (client next : SynkClient)
    → Lacks b'{' psk
    → IsObjectText c
    → deliver ((nsk, with_header psk c) ∷ []) client ≡ some next
    → next ≡ (
        if Dict.contains nsk client.subscriptions
        then (if Dict.contains psk client.subscriptions then client else with_message c client)
        else client)
deliver-behind psk nsk c client next lacks text h =
    let received = receive-with_header psk c client lacks text in
    elim (Bool-cases (Dict.contains nsk client.subscriptions)) [
      | inl t ↦
          let (mid, got, rest) = deliver-first nsk _ [] client next t h in
          let done = deliver-nothing mid next rest in
          elim (Bool-cases (Dict.contains psk client.subscriptions)) [
            | inl known ↦
                rw (t, known)
                  (done ∙ sym (some-injective _ _ (sym (received ∙ rw known refl) ∙ got)))
            | inr new ↦
                rw (t, new)
                  (done ∙ enqueue-eq-some c client mid (sym (received ∙ rw new refl) ∙ got))
          ]
      | inr f ↦ rw f (deliver-nothing client next (sym (deliver-skipped nsk _ [] client f) ∙ h))
    ]

module _ {O D : Type 0} (I : Object O D) where
  informs-stays :
      (o p : O) (client next : SynkClient) (b : Text)
      → I.get_sub_key o ≡ I.get_prev_sub_key o
      → marshal_mod I.marshal (mod_notice I o p []) ≡ ok b
      → deliver ((I.get_prev_sub_key o, b) ∷ []) client ≡ some next
      → Informed I o p client next
  informs-stays o p client next b same modded h =
      let e =
        deliver-one (I.get_prev_sub_key o) b client next
          (marshal_mod-IsObjectText I.marshal _ b modded) h in
      elim (Bool-cases (Dict.contains (I.get_prev_sub_key o) client.subscriptions)) [
        | inl t ↦ by_diff b t (rw (if_pos _ same) modded) (e ∙ rw t refl)
        | inr f ↦ not_told f (rw same f) (e ∙ rw f refl)
      ]

  informs-moves :
      (o p : O) (client next : SynkClient) (b c : Text)
      → I.get_sub_key o ≢ I.get_prev_sub_key o
      → Lacks b'{' (I.get_prev_sub_key o)
      → marshal_mod I.marshal (mod_notice I o p (I.get_sub_key o)) ≡ ok b
      → marshal_add I.marshal (add_notice I o p) ≡ ok c
      → deliver
          ((I.get_prev_sub_key o, b) ∷ (I.get_sub_key o, with_header (I.get_prev_sub_key o) c) ∷ [])
          client
        ≡ some next
      → Informed I o p client next
  informs-moves o p client next b c differ lacks modded added h =
      let psk = I.get_prev_sub_key o in
      let nsk = I.get_sub_key o in
      let text = marshal_add-IsObjectText I.marshal _ c added in
      elim (Bool-cases (Dict.contains psk client.subscriptions)) [
        | inl t ↦
            let rest =
              deliver-plain psk b _ client next t (marshal_mod-IsObjectText I.marshal _ b modded)
                h in
            let e = deliver-behind psk nsk c (with_message b client) next lacks text rest in
            by_diff b t (rw (if_neg _ differ) modded) (e ∙ rw t (ground arith))
        | inr f ↦
            let e =
              deliver-behind psk nsk c client next lacks text
                (sym (deliver-skipped psk b _ client f) ∙ h) in
            elim (Bool-cases (Dict.contains nsk client.subscriptions)) [
              | inl t ↦ by_state c f t added (e ∙ rw (t, f) refl)
              | inr g ↦ not_told f g (e ∙ rw g refl)
            ]
      ]

  -- A delivery of what Modify published that goes on informs the client.
  pub deliver-Informed :
      (o p : O) (out : List (Text × Text)) (client next : SynkClient)
      → Lacks b'{' (I.get_prev_sub_key o)
      → Notices I o p out
      → deliver out client ≡ some next
      → Informed I o p client next
  deliver-Informed o p out client next lacks (stays b same modded e) h =
      informs-stays o p client next b same modded (rw (sym e) h)
  deliver-Informed o p out client next lacks (moves b c differ modded added e) h =
      informs-moves o p client next b c differ lacks modded added (rw (sym e) h)
