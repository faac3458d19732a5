-- ===== src/Pool.antt =====
-- ClientPool.go: the clients by their IDs, and their channels to the web socket, which the pool
-- closes. A number stands for a pointer to a client.
use synk.Base.{
  ℕ, Text, codes, Bool, true, List, [], ◌∷◌, ◌++◌, length, ltb, if◌then◌else◌, ◌==◌, nat_eq,
  text_eq,
}
use synk.Base.Dict
use synk.Base.Dict.{Dict}
use synk.Result.{Outcome, returns, panics}
use synk.Client.{buffer_length}

-- Of a client, what the pool reads and changes: its ID and its channel.
pub record Outgoing : Type 0 where
  pub id : Text
  pub to_web_socket : List Text
  pub closed : Bool

-- `clients` is what the pointers reach.
pub record ClientPool : Type 0 where
  pub all : Dict Text ℕ
  pub clients : ℕ → Outgoing

-- `newClientPool`, over the clients that the pointers reach or will
unfoldable pub new_client_pool : (ℕ → Outgoing) → ClientPool
new_client_pool clients = record { all = []; clients = clients }

-- A store through a pointer
unfoldable pub put : {A : Type 0} → ℕ → A → (ℕ → A) → ℕ → A
unfolding nat_eq
put p c at q = if q == p then c else at q

-- `close(client.toWebSocket)`
unfoldable pub close_channel : Outgoing → Outcome Outgoing
close_channel c =
    if c.closed
    then panics (codes "close of closed channel")
    else returns (record c { closed = true })

-- `select { case client.toWebSocket <- message: default: }`
unfoldable pub send_or_drop : Text → Outgoing → Outcome Outgoing
send_or_drop message c =
    if c.closed
    then panics (codes "send on closed channel")
    else if ltb (length c.to_web_socket) buffer_length
    then returns (record c { to_web_socket = c.to_web_socket ++ message ∷ [] })
    else returns c

-- The cases of the select in `run`
unfoldable pub add : ℕ → ClientPool → ClientPool
unfolding Dict.insert text_eq
add p pool = record pool { all = Dict.insert (pool.clients p).id p pool.all }

unfoldable pub remove : ℕ → ClientPool → Outcome ClientPool
unfolding close_channel Dict.contains Dict.erase text_eq put
remove p pool =
    if Dict.contains (pool.clients p).id pool.all
    then elim (close_channel (pool.clients p)) [
      | panics e ↦ panics e
      | returns c ↦
          returns (record {
            all = Dict.erase (pool.clients p).id pool.all;
            clients = put p c pool.clients;
          })
    ]
    else returns pool

-- `for _, client := range pool.all`, in the order of the list; Go's order is any.
unfoldable pub broadcast_loop : Text → Dict Text ℕ → (ℕ → Outgoing) → Outcome (ℕ → Outgoing)
unfolding send_or_drop put
broadcast_loop message [] clients = returns clients
broadcast_loop message ((id, p) ∷ rest) clients = elim (send_or_drop message (clients p)) [
  | panics e ↦ panics e
  | returns c ↦ broadcast_loop message rest (put p c clients)
]

unfoldable pub broadcast : Text → ClientPool → Outcome ClientPool
unfolding broadcast_loop
broadcast message pool = elim (broadcast_loop message pool.all pool.clients) [
  | panics e ↦ panics e
  | returns clients ↦ returns (record pool { clients = clients })
]
