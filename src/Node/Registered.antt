-- ===== src/Node/Registered.antt =====
-- Whatever is registered with a node, and how often: the first constructors count.
use synk.Base.{Text, codes, Option, none, some, List, [], ◌∷◌, ◌≡◌}
use synk.Result.{Outcome, returns, panics}
use synk.Settings.{Settings}
use synk.Node.{
  Drivers, Node, MongoSynk, register_client_constructor, register_container_constructor, new_client,
}

-- The calls of a program that sets a node up
pub data Call (O C K : Type 0) : Type 0 where
  registers_client : (C → K) → Call O C K
  registers_container : (Text → Option O) → Call O C K

-- The constructor that a node has, or else another
abbrev or_first : {T : Type 0} → Option T → Option T → Option T
or_first (some f) other = some f
or_first none other = other

module _ {M A O C K : Type 0} where
  -- The node that a call leaves, which may panic.
  unfoldable pub perform : Call O C K → Node M A O C K → Node M A O C K
  unfolding register_client_constructor register_container_constructor
  perform (registers_client f) node = (register_client_constructor f node).1
  perform (registers_container f) node = (register_container_constructor f node).1

  unfoldable pub perform_all : List (Call O C K) → Node M A O C K → Node M A O C K
  unfolding perform
  perform_all [] node = node
  perform_all (call ∷ calls) node = perform_all calls (perform call node)

module _ {O C K : Type 0} where
  -- The first of each kind
  unfoldable pub first_client : List (Call O C K) → Option (C → K)
  first_client [] = none
  first_client (registers_client f ∷ calls) = some f
  first_client (registers_container f ∷ calls) = first_client calls

  unfoldable pub first_container : List (Call O C K) → Option (Text → Option O)
  first_container [] = none
  first_container (registers_container f ∷ calls) = some f
  first_container (registers_client f ∷ calls) = first_container calls

module _ {M R A L W O : Type 0} (D : Drivers M R A L W) (settings : Settings) where
  made : Text → Option (Text → Option O) → M → Text → Outcome (MongoSynk O L)
  made reason container session pool = elim container [
    | none ↦ panics reason
    | some creator ↦ returns (record {
      creator = creator;
      coll = D.clone_collection session settings.mongo_db_name (codes "objects");
      redis_pool = pool;
    })
  ]

module _ {M R A L W O C K : Type 0} (D : Drivers M R A L W) (settings : Settings) where
  -- A new node has no constructors.
  record IsFresh (node : Node M A O C K) : Type 0 where
    container : node.new_container ≡ none
    client : node.new_client ≡ none
    pool : node.redis_pool ≡ settings.redis_addr

  -- The Mutator or Loader of a node
  abbrev pub synk_of : Node M A O C K → (Text → Option O) → MongoSynk O L
  synk_of node creator = record {
    creator = creator;
    coll = D.clone_collection node.mongo_session settings.mongo_db_name (codes "objects");
    redis_pool = settings.redis_addr;
  }
