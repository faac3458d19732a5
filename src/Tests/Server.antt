-- ===== src/Tests/Server.antt =====
-- A server, its settings, its node and a pipe on concrete runs.
use synk.Base.{
  ℕ, Text, codes, Bool, true, false, Option, none, some, List, [], ◌∷◌, ◌++◌, length, ◌≡◌, ◌≢◌, ◌≤◌,
  ◌↔◌, ◌⊎◌, refl, arith, if◌then◌else◌, ◌==◌, text_eq,
}
use synk.Base.Index.{index}
use synk.Result.{ok, Error, returns, panics}
use synk.Handler.{
  new_handler, Server, Event, upgrades, creates, adds, waits, removes, broadcasts, flows, run,
}
use synk.Handler.Safe.{run_returns}
use synk.Handler.Ends.{run-closed}
use synk.Settings.{Settings, IsComplete, from_env, init, init_lem}
use synk.Node.{Drivers, Node, new_client}
use synk.Node.Registered.{Call, registers_container}
use synk.Stest.Human.{Human}
use synk.Pipe.{ToRedis, Pipe, pumping, publishes, pumps, to_redis_length}
use synk.Pipe.Pump.{published, backlog, run-backlog}
use synk.Tests.{human_creator}

-- Two requests, with clients of the same ID
abbrev start : Server
start = new_handler (λ p. record { id = codes "same!"; to_web_socket = []; closed = false })

abbrev schedule : List Event
schedule =
    upgrades 0 none
    ∷ creates 0 none
    ∷ upgrades 1 none
    ∷ creates 1 none
    ∷ adds 0
    ∷ adds 1
    ∷ broadcasts (codes "{}")
    ∷ waits 0
    ∷ waits 1
    ∷ removes 0
    ∷ broadcasts (codes "{}")
    ∷ removes 1
    ∷ []

run_returns_example : run schedule start ≢ some (panics (codes "close of closed channel"))
unfolding new_handler
run_returns_example = run_returns schedule start (codes "close of closed channel") refl (λ p. refl)

-- A request of its own ID, which is added after another has come
abbrev alone : Server
alone = new_handler (λ p. record { id = p ∷ []; to_web_socket = []; closed = false })

abbrev before : List Event
before = upgrades 0 none ∷ creates 0 none ∷ upgrades 1 (some (codes "no upgrade")) ∷ []

abbrev after : List Event
after = flows 0 (codes "{}" ∷ []) ∷ waits 0 ∷ removes 0 ∷ []

abbrev reached : List Event → Server → Server
reached events s = elim (run events s) [ none ↦ s | some (panics e) ↦ s | some (returns t) ↦ t ]

abbrev ready : Server
ready = reached before alone

abbrev ended : Server
ended = reached (adds 0 ∷ after) ready

run-closed_example : (ended.pool.clients 0).closed ≡ true
unfolding run synk.Pool.add synk.Pool.remove new_handler
run-closed_example =
    run-closed before after 0 alone ready ended refl (λ q. refl) (λ q n e. n (ground arith)) refl
      refl refl refl

abbrev environment : Text → Text
environment name = if name == codes "SYNK_REDIS_ADDR" then codes "127.0.0.2" else []

init_lem_example :
    let given = from_env environment in
    let s = init given in
    IsComplete s
    × ((given.mongo_addr ≡ []) ⊎ (s.mongo_addr ≡ given.mongo_addr))
    × ((given.mongo_db_name ≡ []) ⊎ (s.mongo_db_name ≡ given.mongo_db_name))
    × ((index given.redis_addr b':' ≡ none) ⊎ (s.redis_addr ≡ given.redis_addr))
    × ((s.mongo_login_required ≡ true) ↔ ((given.mongo_user ≢ []) ⊎ (given.mongo_pass ≢ [])))
init_lem_example = init_lem environment

init_test : (init (from_env environment)).redis_addr ≡ codes "127.0.0.2:6379"
unfolding init from_env synk.Base.nat_eq
init_test = refl

-- Drivers that connect
abbrev drivers : Drivers Text Text Text Text ℕ
drivers = record {
  dial_mongo = λ addr w. (ok addr, w);
  login = λ user pass source session w. (none, w);
  clone_collection = λ session db coll. coll;
  dial_redis = λ addr w. (ok addr, w);
  new_redis_agents = λ conn. conn;
}

abbrev settings : Settings
settings = init (from_env environment)

abbrev node : Node Text Text Human ℕ ℕ
node = record {
  mongo_session = settings.mongo_addr;
  redis_pool = settings.redis_addr;
  redis_agents = settings.redis_addr;
  new_container = none;
  new_client = none;
}

abbrev calls : List (Call Human ℕ ℕ)
calls = registers_container human_creator ∷ registers_container (λ key. none) ∷ []

-- A Redis that keeps what it is sent
abbrev conn_do : ToRedis → List ToRedis → Error × List ToRedis
conn_do val w = (none, w ++ val ∷ [])

abbrev idle : Pipe (List ToRedis)
idle = record { to_redis = []; pump = pumping; world = [] }

abbrev message : List Text
message = codes "m:0|0" ∷ codes "{}" ∷ []

abbrev pumped : Pipe (List ToRedis)
pumped = record {
  to_redis = record { command_name = codes "PUBLISH"; args = message } ∷ [];
  pump = pumping;
  world = record { command_name = codes "PUBLISH"; args = message } ∷ [];
}

run-backlog_example :
    (backlog conn_do (λ w. w) pumped
      ≡ backlog conn_do (λ w. w) idle
        ++ published (publishes message ∷ pumps ∷ publishes message ∷ []))
    × (length pumped.to_redis ≤ to_redis_length)
unfolding synk.Pipe.run
run-backlog_example =
    run-backlog conn_do (λ w. w) (λ val w h. refl)
      (publishes message ∷ pumps ∷ publishes message ∷ []) idle pumped (omega arith) refl refl
