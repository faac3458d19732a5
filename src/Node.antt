-- ===== src/Node.antt =====
-- Node.go: a node's connections and the constructors that are registered with it.
pub mod Registered
use synk.Base.{
  Text, codes, Bool, true, false, Option, none, some, List, [], ◌∷◌, ◌++◌, if◌then◌else◌,
}
use synk.Result.{Result, ok, err, Error, Outcome, returns, panics, Exec, pure, ◌>>=◌, ◌>>◌}
use synk.Settings.{Settings}
use synk.Client.{nil_dereference}

-- What the node calls of mgo, redigo and pubsub, for sessions M, connections R, agents A and
-- collections L
pub record Drivers (M R A L W : Type 0) : Type 0 where
  pub dial_mongo : Text → W → Result M × W
  -- user, password and source
  pub login : Text → Text → Text → M → W → Error × W
  pub clone_collection : M → Text → Text → L
  pub dial_redis : Text → W → Result R × W
  pub new_redis_agents : R → A

-- `redis_pool` is the address that the pool dials.
pub record Node (M A O C K : Type 0) : Type 0 where
  pub mongo_session : M
  pub redis_pool : Text
  pub redis_agents : A
  pub new_container : Option (Text → Option O)
  pub new_client : Option (C → K)

-- The fields of the MongoSynk that is a Mutator or a Loader
pub record MongoSynk (O L : Type 0) : Type 0 where
  pub creator : Text → Option O
  pub coll : L
  pub redis_pool : Text

module _ {M R A L W : Type 0} (D : Drivers M R A L W) (settings : Settings) where
  -- `session.Login`, where it is required
  unfoldable pub log_in : M → Exec W M
  log_in session w =
      if settings.mongo_login_required
      then (let (e, v) =
            D.login settings.mongo_user settings.mongo_pass settings.mongo_db_name session w in
          elim e [
            | none ↦ (returns session, v)
            | some f ↦ (panics (codes "Error Authorizing mongodb: " ++ f), v)
          ])
      else (returns session, w)

  unfoldable pub dial_mongo : Exec W M
  unfolding log_in
  dial_mongo w =
      let (r, v) = D.dial_mongo settings.mongo_addr w in
      elim r [
        | ok session ↦ log_in session v
        | err e ↦ (panics (codes "Error Dialing mongodb: " ++ e), v)
      ]

  -- `DialRedis`, and the Dial of the pool of `DialRedisPool`
  unfoldable pub dial_redis : Exec W R
  dial_redis w =
      let (r, v) = D.dial_redis settings.redis_addr w in
      elim r [
        | ok conn ↦ (returns conn, v)
        | err e ↦ (panics (codes "Failed to connect to redis: " ++ e), v)
      ]

  unfoldable pub new_node : {O C K : Type 0} → Exec W (Node M A O C K)
  unfolding dial_mongo dial_redis
  new_node = do
    session ← dial_mongo
    conn ← dial_redis
    pure (record {
      mongo_session = session;
      redis_pool = settings.redis_addr;
      redis_agents = D.new_redis_agents conn;
      new_container = none;
      new_client = none;
    })

module _ {M R A L W O C K : Type 0} (D : Drivers M R A L W) (settings : Settings) where
  unfoldable pub create_mutator : Node M A O C K → Outcome (MongoSynk O L)
  create_mutator node = elim node.new_container [
    | none ↦ panics (codes "Tried to get a mutator, but not NewContainer is not set")
    | some creator ↦ returns (record {
      creator = creator;
      coll = D.clone_collection node.mongo_session settings.mongo_db_name (codes "objects");
      redis_pool = node.redis_pool;
    })
  ]

  unfoldable pub create_loader : Node M A O C K → Outcome (MongoSynk O L)
  create_loader node = elim node.new_container [
    | none ↦ panics (codes "Tried to get a Loader, but not NewContainer is not set")
    | some creator ↦ returns (record {
      creator = creator;
      coll = D.clone_collection node.mongo_session settings.mongo_db_name (codes "objects");
      redis_pool = node.redis_pool;
    })
  ]

module _ {M A O C K : Type 0} where
  unfoldable pub register_client_constructor : (C → K) → Exec (Node M A O C K) (Unit {0})
  register_client_constructor constructor node = elim node.new_client [
    | some f ↦ (panics (codes "synk.Node cannot register an additional ClientConstructor"), node)
    | none ↦ (returns tt, record node { new_client = some constructor })
  ]

  unfoldable pub register_container_constructor :
      (Text → Option O) → Exec (Node M A O C K) (Unit {0})
  register_container_constructor constructor node = elim node.new_container [
    | some f ↦ (panics (codes "synk.Node cannot register an additional ContainerConstructor"), node)
    | none ↦ (returns tt, record node { new_container = some constructor })
  ]

  -- The call of a nil function panics.
  unfoldable pub new_container : Text → Node M A O C K → Outcome (Option O)
  new_container type_key node = elim node.new_container [
    | none ↦ panics nil_dereference
    | some f ↦ returns (f type_key)
  ]

  unfoldable pub new_client : C → Node M A O C K → Outcome K
  new_client client node = elim node.new_client [
    | none ↦ panics nil_dereference
    | some f ↦ returns (f client)
  ]
