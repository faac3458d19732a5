-- ===== src/Inbox.antt =====
-- What a browser sends: MessageFromBytes of Message.go, and the loop of startReadingFromWebSocket
-- in Client.go, which fills the client's channel of messages.
use synk.Base.{
  Text, codes, Bool, true, false, List, [], ◌∷◌, ◌++◌, ◌==◌, text_eq, if◌then◌else◌, ◌≡◌, ◌≢◌, refl,
  inl, inr, ap, arith, map,
}
use mathlib.Core.List.{filter_map}
use synk.Result.{value, Result, Result-cases, ok, err}
use synk.Client.{Message, update, custom, UpdateSubscription, CustomMessage}

-- `json.Unmarshal` of a third party: into a MethodMessage, whose method it gives, and into an
-- UpdateSubscriptionMessage
pub record Unmarshal : Type 0 where
  pub method : Text → Result Text
  pub update_subscription : Text → Result UpdateSubscription

-- The messages that have been sent to `fromWebSocket`, and whether it has been closed
pub record Channel : Type 0 where
  pub messages : List Message
  pub closed : Bool

module _ (json : Unmarshal) where
  unfoldable pub message_from_bytes : Text → Result Message
  message_from_bytes raw = elim (json.method raw) [
    | err e ↦ err e
    | ok method ↦
        if method == []
        then err (codes "MessageFromBytes received a message with no 'method' json")
        else if method == codes "updateSubscription"
        then elim (json.update_subscription raw) [ ok m ↦ ok (update m) | err e ↦ err e ]
        else ok (custom (record { method = method; raw = raw }))
  ]

  -- The loop, on the results of ReadMessage: an error ends it, and the channel is closed.
  unfoldable pub read_loop : List (Result Text) → Channel
  read_loop [] = record { messages = []; closed = false }
  read_loop (err e ∷ reads) = record { messages = []; closed = true }
  read_loop (ok bytes ∷ reads) =
      let rest = read_loop reads in
      elim (message_from_bytes bytes) [
        | err e ↦ rest
        | ok m ↦ record rest { messages = m ∷ rest.messages }
      ]

  -- What a message says of the bytes that it was parsed from: they hold its method, which is not
  -- empty; a message of another method than updateSubscription has the bytes as they came.
  pub data Says (raw : Text) : Message → Type 0 where
    says_update :
        (m : UpdateSubscription)
        → json.method raw ≡ ok (codes "updateSubscription")
        → json.update_subscription raw ≡ ok m
        → Says raw (update m)
    says_custom :
        (m : CustomMessage)
        → json.method raw ≡ ok m.method
        → m.method ≢ []
        → m.method ≢ codes "updateSubscription"
        → m.raw ≡ raw
        → Says raw (custom m)

  -- MessageFromBytes returns the message that the bytes say.
  pub message_from_bytes-Says :
      (raw : Text) (m : Message) → message_from_bytes raw ≡ ok m → Says raw m
  unfolding message_from_bytes
  message_from_bytes-Says raw (update m) h = says_update m (ground arith) (ground arith)
  message_from_bytes-Says raw (custom m) h =
      says_custom m (ground arith) (ground arith) (ground arith) (ground arith)

  -- The loop ends at the first error of ReadMessage: it closes the channel, and has sent the
  -- messages that the reads before that could be parsed as, each once and in the order of the
  -- reads, and nothing else; a read that cannot be parsed does not end it.
  pub read_loop_lem :
      (reads : List Text) (e : Text) (rest : List (Result Text))
      → let c = read_loop (map ok reads ++ err e ∷ rest) in
        (c.closed ≡ true) × (c.messages ≡ filter_map (λ raw. value (message_from_bytes raw)) reads)
  unfolding read_loop filter_map
  read_loop_lem [] e rest = (refl, refl)
  read_loop_lem (raw ∷ reads) e rest =
      let (closed, messages) = read_loop_lem reads e rest in
      elim (Result-cases (message_from_bytes raw)) [
        | inl (m, parsed) ↦ rw (parsed, read_loop, filter_map) (closed, ap (λ l. m ∷ l) messages)
        | inr (f, failed) ↦ rw (failed, read_loop, filter_map) (closed, messages)
      ]
