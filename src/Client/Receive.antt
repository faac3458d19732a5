-- ===== src/Client/Receive.antt =====
-- What `Receive` does with the messages that MongoSynk and RedisSynk publish.
use synk.Base.{
  ℕ, suc, Text, codes, some, ◌∷◌, ◌++◌, length, take, drop, take-length-append, drop-length-append,
  ◌≡◌, ◌≢◌, ap, ◌∙◌, arith, All-append, if◌then◌else◌, append_assoc, text_eq,
}
use synk.Base.Dict
use synk.Base.Index.{index, index-append, Lacks, has_prefix-append}
use synk.Mongo.{with_header}
use synk.Wire.Message.{IsObjectText}
use synk.Client.{SynkClient, enqueue, receive, receive_header}

-- A text that begins with a brace is a message without a header, and goes to the web socket.
pub receive_plain :
    (t : Text) (client : SynkClient) → IsObjectText t → receive t client ≡ enqueue t client
unfolding receive index
receive_plain t client h = rw h.begins (ground arith)

receive_at :
    (s : Text) (n : ℕ) (client : SynkClient)
    → index s b'{' ≡ some (suc n)
    → receive s client ≡ receive_header (take (suc n) s) (drop (suc n) s) client
unfolding receive
receive_at s n client h = rw (h, receive)

receive_split :
    (a t : Text) (x : ℕ) (client : SynkClient)
    → Lacks b'{' (x ∷ a)
    → receive ((x ∷ a) ++ b'{' ∷ t) client ≡ receive_header (x ∷ a) (b'{' ∷ t) client
receive_split a t x client h =
    receive_at ((x ∷ a) ++ b'{' ∷ t) (length a) client (index-append b'{' (x ∷ a) t h)
    ∙ ap (λ p. receive_header p (drop (length (x ∷ a)) ((x ∷ a) ++ b'{' ∷ t)) client)
        (take-length-append (x ∷ a) (b'{' ∷ t))
    ∙ ap (λ p. receive_header (x ∷ a) p client) (drop-length-append (x ∷ a) (b'{' ∷ t))

-- The header
receive_header-from :
    (key t : Text) (client : SynkClient)
    → receive_header (codes "from " ++ key) t client
      ≡ (if Dict.contains key client.subscriptions then some client else enqueue t client)
unfolding receive_header
receive_header-from key t client = rw (has_prefix-append (codes "from ") key)

receive_from :
    (key t : Text) (client : SynkClient)
    → Lacks b'{' key
    → receive (codes "from " ++ (key ++ b'{' ∷ t)) client
      ≡ (if Dict.contains key client.subscriptions then some client else enqueue (b'{' ∷ t) client)
receive_from key t client h =
    receive_split (codes "rom " ++ key) t b'f' client
      (omega arith, All-append (λ x. x ≢ b'{') (codes "rom ") key (ground arith) h)
    ∙ receive_header-from key (b'{' ∷ t) client

-- A message behind a `from` header goes to the web socket, without the header, if the client has
-- not subscribed to the key in the header, and is dropped if it has, where the key has no brace.
pub receive-with_header :
    (key t : Text) (client : SynkClient)
    → Lacks b'{' key
    → IsObjectText t
    → receive (with_header key t) client
      ≡ (if Dict.contains key client.subscriptions then some client else enqueue t client)
unfolding with_header
receive-with_header key t client lacks h = rw h.begins (receive_from key h.rest client lacks)

-- Where the key has a brace, the header ends there: the text before the brace is looked up, and
-- what is forwarded, if the client has not subscribed to that, begins with the rest of the key.
pub receive-with_brace :
    (a b t : Text) (client : SynkClient)
    → Lacks b'{' a
    → receive (with_header (a ++ b'{' ∷ b) t) client ≡ (
        if Dict.contains a client.subscriptions
        then some client
        else enqueue (b'{' ∷ (b ++ t)) client)
unfolding with_header
receive-with_brace a b t client lacks = rw (append_assoc) (receive_from a (b ++ t) client lacks)
