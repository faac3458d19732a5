-- ===== src/Handler.antt =====
-- Handler.go: the goroutines of ServeHTTP, one for each request, and that of the pool, which takes
-- from its channels. A number stands for a request and for its client. An event is one step of one
-- of them; an event that finds its goroutine elsewhere is `none`.
pub mod Entries
pub mod Broadcast
pub mod Members
pub mod Safe
pub mod Tracked
pub mod Removal
pub mod Ends
use synk.Base.{ℕ, Text, Bool, true, false, Option, none, some, List, [], ◌∷◌, if◌then◌else◌}
use synk.Result.{Error, Outcome, returns, panics}
use synk.Pool.{Outgoing, new_client_pool, ClientPool, put, add, remove, broadcast}

-- Where a request is: before Upgrade; before newClient; about to add its client; waiting for the
-- client's end; about to remove it; or returned.
pub data Phase : Type 0 where
  upgrading : Phase
  creating : Phase
  adding : Phase
  waiting : Phase
  removing : Phase
  returned : Phase

pub record Server : Type 0 where
  pub pool : ClientPool
  pub phases : ℕ → Phase
  -- the web sockets that ServeHTTP has closed
  pub ws_closed : ℕ → Bool

pub data Event : Type 0 where
  -- a request goes on; the errors are those of Upgrade and newClient
  upgrades : ℕ → Error → Event
  creates : ℕ → Error → Event
  adds : ℕ → Event
  waits : ℕ → Event
  removes : ℕ → Event
  -- a message is sent to `pool.broadcast`
  broadcasts : Text → Event
  -- the goroutines of a client change what its channel holds, until it is closed
  flows : ℕ → List Text → Event

-- `NewHandler`, before any request
unfoldable pub new_handler : (ℕ → Outgoing) → Server
unfolding new_client_pool
new_handler clients = record {
  pool = new_client_pool clients;
  phases = λ p. upgrading;
  ws_closed = λ p. false;
}

unfoldable pub move : ℕ → Phase → Server → Server
unfolding put
move p phase s = record s { phases = put p phase s.phases }

unfoldable pub on_upgrade : ℕ → Error → Server → Server
unfolding move
on_upgrade p (some e) s = move p returned s
on_upgrade p none s = move p creating s

unfoldable pub on_create : ℕ → Error → Server → Server
unfolding move
on_create p (some e) s = move p returned (record s { ws_closed = put p true s.ws_closed })
on_create p none s = move p adding s

-- The pool's goroutine goes on, unless it panics.
unfoldable pub with_pool : Outcome ClientPool → Server → Outcome Server
with_pool (returns pool) s = returns (record s { pool = pool })
with_pool (panics e) s = panics e

-- What a request does next.
unfoldable pub serve : Event → Phase → Server → Option (Outcome Server)
unfolding on_upgrade on_create with_pool move
serve (upgrades p e) upgrading s = some (returns (on_upgrade p e s))
serve (creates p e) creating s = some (returns (on_create p e s))
serve (adds p) adding s = some (returns (move p waiting (record s { pool = add p s.pool })))
serve (waits p) waiting s = some (returns (move p removing s))
serve (removes p) removing s = some (with_pool (remove p s.pool) (move p returned s))
serve event phase s = none

unfoldable pub step : Event → Server → Option (Outcome Server)
unfolding serve with_pool
step (broadcasts message) s = some (with_pool (broadcast message s.pool) s)
step (flows p texts) s =
    if (s.pool.clients p).closed
    then none
    else some (
        returns (record s {
          pool = record s.pool {
            clients = put p (record (s.pool.clients p) { to_web_socket = texts }) s.pool.clients;
          };
        }))
step (upgrades p e) s = serve (upgrades p e) (s.phases p) s
step (creates p e) s = serve (creates p e) (s.phases p) s
step (adds p) s = serve (adds p) (s.phases p) s
step (waits p) s = serve (waits p) (s.phases p) s
step (removes p) s = serve (removes p) (s.phases p) s

-- A schedule; a panic ends it.
unfoldable pub run : List Event → Server → Option (Outcome Server)
unfolding step
run [] s = some (returns s)
run (event ∷ events) s = elim (step event s) [
  | none ↦ none
  | some (panics e) ↦ some (panics e)
  | some (returns t) ↦ run events t
]
