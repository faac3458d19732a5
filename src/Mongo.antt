-- ===== src/Mongo.antt =====
-- MongoSynk.go: the methods of MongoSynk over a service, for objects with the methods `I` whose
-- documents `bson` makes. A method acts on the object that its argument points to and on the
-- service, and returns an `error` or panics.
mod Steps
pub mod Create
pub mod Notices
pub mod Modify
pub mod Success
pub mod Delete
pub mod Load
pub mod Close
use synk.Base.{
  ℕ, Text, codes, Bool, true, false, not, Option, none, some, List, [], ◌∷◌, ◌++◌, ◌==◌, text_eq,
  if◌then◌else◌,
}
use synk.Result.{
  Result, ok, err, Error, map_ok, error_of, or_nil, Outcome, returns, panics, Exec, pure, gets,
  ◌>>=◌, ◌>>◌,
}
use synk.Object.{Object, run_on_create}
use synk.Service.{Service}
use synk.Wire.Message.{AddMsg, ModMsg, RemMsg, marshal_add, marshal_mod, marshal_rem}

-- The BSON of a third party: what it makes of an object, and what it reads from a raw document,
-- the type alone (`typeOnly`) and into a container.
pub record Bson (O Doc : Type 0) : Type 0 where
  pub to_doc : O → Doc
  pub read_type : Doc → Result Text
  pub read_into : Doc → O → Result O

-- The object that a method is given, and the services.
pub record Session (O W : Type 0) : Type 0 where
  pub object : O
  pub world : W

-- `log.Panicln(reason, err.Error())`, unless the error is nil
unfoldable pub epanic : {S : Type 0} → Text → Error → Exec S (Unit {0})
epanic reason none s = (returns tt, s)
epanic reason (some e) s = (panics (reason ++ (b' ' ∷ (e ++ 10 ∷ []))), s)

module _ {O W : Type 0} where
  -- A method of the object.
  abbrev pub update : (O → O) → Exec (Session O W) (Unit {0})
  update f s = (returns tt, record s { object = f s.object })

  -- `err = f(); epanic(reason, err)`, with a call of a service
  unfoldable pub checked : Text → (W → Error × W) → Exec (Session O W) (Unit {0})
  unfolding epanic
  checked reason f s = let (e, w) = f s.world in epanic reason e (record s { world = w })

module _ {W Doc : Type 0} (S : Service W Doc) where
  -- `bytes, err := json.Marshal(msg)`, and PUBLISH of the bytes on a channel
  unfoldable pub publish_marshalled : Result Text → Text → W → Error × W
  publish_marshalled (err e) channel w = (some e, w)
  publish_marshalled (ok bytes) channel w = S.publish channel bytes w

module _ {O D : Type 0} (I : Object O D) where
  -- What Create does to the object before it makes the message.
  unfoldable pub prepare : (ℕ → ℕ) → O → Text × O
  prepare draws obj =
      let initialised = run_on_create I (I.tag_init (I.type_key obj) draws obj) in
      let resolved = (I.resolve initialised).1 in
      let subscription = I.get_sub_key resolved in
      (subscription, I.tag_set_sub subscription resolved)

-- `[]byte("from "+msg.PSKey+string(bytes))`
unfoldable pub with_header : Text → Text → Text
with_header ps_key bytes = codes "from " ++ (ps_key ++ bytes)

module _ {O D W Doc : Type 0} (I : Object O D) (S : Service W Doc) where
  unfoldable pub send : AddMsg D → W → Error × W
  unfolding publish_marshalled
  send msg w = publish_marshalled S (marshal_add I.marshal msg) msg.s_key w

  unfoldable pub send_mod : ModMsg D → W → Error × W
  unfolding publish_marshalled
  send_mod msg w = publish_marshalled S (marshal_mod I.marshal msg) msg.s_key w

  unfoldable pub send_add_from : AddMsg D → Text → W → Error × W
  send_add_from msg from w =
      publish_marshalled S (map_ok (with_header msg.ps_key) (marshal_add I.marshal msg)) msg.s_key w

  unfoldable pub send_rem : RemMsg → W → Error × W
  unfolding publish_marshalled
  send_rem msg w = publish_marshalled S (marshal_rem msg) msg.s_key w

module _ {O D W Doc : Type 0} (I : Object O D) (S : Service W Doc) where
  unfoldable pub delete : Exec (Session O W) Error
  delete = do
    obj ← gets (λ s. s.object)
    let msg : RemMsg = record {
      s_key = I.get_prev_sub_key obj;
      id = I.tag_get_id obj;
      type = I.type_key obj;
    }
    checked (codes "MongoSynk.Delete failed to Remove an object") (S.remove_id (I.tag_get_id obj))
    checked (codes "MongoSynk.Delete failed to send rem message") (send_rem I S msg)
    pure none

module _ {O D W Doc : Type 0} (I : Object O D) (S : Service W Doc) (bson : Bson O Doc) where
  unfoldable pub create : (ℕ → ℕ) → Exec (Session O W) Error
  create draws = do
    type_key ← gets (λ s. I.type_key s.object)
    subscription ← gets (λ s. (prepare I draws s.object).0)
    update (λ o. (prepare I draws o).1)
    obj ← gets (λ s. s.object)
    let msg : AddMsg D = record {
      state = I.state obj;
      id = I.tag_get_id obj;
      s_key = subscription;
      ps_key = [];
      version = I.version obj;
      type = type_key;
    }
    checked (codes "Failed to create new object in Mongodb") (S.insert (bson.to_doc obj))
    checked (codes "Failed to send addMsg") (send I S msg)
    pure none

  -- The object has kept its subscription.
  unfoldable pub modify_simple : ModMsg D → Exec (Session O W) Error
  modify_simple msg = do
    obj ← gets (λ s. s.object)
    checked (codes "Mongosynk.Modify failed to insert object")
        (S.update_id msg.id (bson.to_doc obj))
    checked (codes "MongoSynk.Modify failed to send message") (send_mod I S msg)
    pure none

  -- The object has changed its subscription, from `psk` to `nsk`.
  unfoldable pub modify_moved : ModMsg D → Text → Text → Exec (Session O W) Error
  modify_moved msg psk nsk = do
    update (I.tag_set_sub nsk)
    moved ← gets (λ s. s.object)
    let amsg : AddMsg D = record {
      state = I.state moved;
      id = msg.id;
      s_key = nsk;
      ps_key = psk;
      version = I.version moved;
      type = I.type_key moved;
    }
    update (I.tag_set_sub nsk)
    obj ← gets (λ s. s.object)
    checked (codes "MongoSynk.Modify failed to insert on a non-simple Modify")
        (S.update_id msg.id (bson.to_doc obj))
    checked (codes "MongoSynk.Modify failed to send mod message on a non-simple Modify")
        (send_mod I S msg)
    checked (codes "MongoSynk.Modify failed to send add message on a non-simple Modify")
        (send_add_from I S amsg psk)
    pure none

  unfoldable pub modify : Exec (Session O W) Error
  modify = do
    nsk ← gets (λ s. I.get_sub_key s.object)
    psk ← gets (λ s. I.get_prev_sub_key s.object)
    id ← gets (λ s. I.tag_get_id s.object)
    diff ← gets (λ s. (I.resolve s.object).0)
    update (λ o. (I.resolve o).1)
    version ← gets (λ s. I.version s.object)
    let simple = nsk == psk
    let msg : ModMsg D = record {
      diff = diff;
      id = id;
      version = version;
      s_key = psk;
      ns_key = if not simple then nsk else [];
    }
    if simple then modify_simple msg else modify_moved msg psk nsk

-- The struct's Coll, BSON and Creator; a nil container is `none`.
module _ {O W Doc : Type 0} (S : Service W Doc) (bson : Bson O Doc)
    (creator : Text → Option O) where
  -- One round of the loop: the container that it appends, if it does not `continue`.
  unfoldable pub load_one : Doc → Option O
  load_one raw = elim (bson.read_type raw) [
    | err e ↦ none
    | ok type ↦ elim (creator type) [
      | none ↦ none
      | some container ↦ elim (bson.read_into raw container) [ err e ↦ none | ok o ↦ some o ]
    ]
  ]

  pub load_loop : List O → List Doc → List O
  load_loop results [] = results
  load_loop results (raw ∷ raws) =
      load_loop (elim (load_one raw) [ none ↦ results | some o ↦ results ++ o ∷ [] ]) raws

  unfoldable pub load : List Text → Exec W (Result (List O))
  unfolding load_loop epanic
  load s_keys = do
    found ← λ w. let (r, w') = S.find s_keys w in (returns r, w')
    epanic (codes "MongoSynk.GetObjects: error with .All mongo query") (error_of found)
    pure (ok (load_loop [] (or_nil found)))

-- `Publish`, of a []byte or of a value, whose marshalling is given
pub data Payload : Type 0 where
  raw_bytes : Text → Payload
  value : Result Text → Payload

module _ {W Doc : Type 0} (S : Service W Doc) where
  unfoldable pub publish : Text → Payload → W → Error × W
  publish channel (raw_bytes bytes) w = S.publish channel bytes w
  publish channel (value (ok bytes)) w = S.publish channel bytes w
  publish channel (value (err e)) w = (some e, w)
