-- ===== src/Handler/Broadcast.antt =====
-- A broadcast keeps the server safe.
use synk.Base.{
  ℕ, Text, false, Bool-cases, Option, none, some, [], ◌∷◌, ◌++◌, length, ltb, ◌≡◌, refl, sym, ap,
  subst, ◌∙◌, inl, inr, All, All-imp, arith, nat_eq, text_eq,
}
use synk.Base.Dict.{Dict}
use synk.Result.{Outcome, returns, panics}
use synk.Pool.{Outgoing, ClientPool, put, send_or_drop, broadcast_loop, broadcast}
use synk.Handler.{
  Phase, upgrading, creating, adding, waiting, removing, returned, Server, with_pool,
}
use synk.Handler.Entries.{IsSafe, IsInPool, put-cases, IsServed}

-- The stores have the same IDs, and the same channels are closed.
pub record Same (clients next : ℕ → Outgoing) : Type 0 where
  pub id : (p : ℕ) → (next p).id ≡ (clients p).id
  pub closed : (p : ℕ) → (next p).closed ≡ (clients p).closed

pub put-Same :
    (p : ℕ) (c : Outgoing) (clients : ℕ → Outgoing)
    → c.id ≡ (clients p).id
    → c.closed ≡ (clients p).closed
    → Same clients (put p c clients)
put-Same p c clients i o = record {
  id = λ q. elim (put-cases p q c clients) [
    | inl (same, to) ↦ ap (λ x. x.id) to ∙ i ∙ ap (λ r. (clients r).id) (sym same)
    | inr (other, to) ↦ ap (λ x. x.id) to
  ];
  closed = λ q. elim (put-cases p q c clients) [
    | inl (same, to) ↦ ap (λ x. x.closed) to ∙ o ∙ ap (λ r. (clients r).closed) (sym same)
    | inr (other, to) ↦ ap (λ x. x.closed) to
  ];
}

pub clients-IsSafe :
    (s : Server) (next : ℕ → Outgoing)
    → Same s.pool.clients next
    → IsSafe s
    → IsSafe (record s { pool = record s.pool { clients = next } })
clients-IsSafe s next same h = record {
  entries =
      All-imp (λ e. IsInPool (s.phases e.1) × ((s.pool.clients e.1).id ≡ e.0))
        (λ e. IsInPool (s.phases e.1) × ((next e.1).id ≡ e.0)) (λ e x. (x.0, same.id e.1 ∙ x.1))
        s.pool.all h.entries;
  unclosed = λ p served. same.closed p ∙ h.unclosed p served;
}

-- To an open channel, the pool sends or does not, but does not panic.
send_or_drop-Same :
    (message : Text) (p : ℕ) (clients : ℕ → Outgoing)
    → (clients p).closed ≡ false
    → (c : Outgoing) × (send_or_drop message (clients p) ≡ returns c)
      × Same clients (put p c clients)
unfolding send_or_drop
send_or_drop-Same message p clients h =
    elim (Bool-cases (ltb (length (clients p).to_web_socket) 64)) [
      | inl room ↦ (
        record (clients p) { to_web_socket = (clients p).to_web_socket ++ message ∷ [] },
        ground arith,
        put-Same p _ clients refl refl,
      )
      | inr is_full ↦ (clients p, ground arith, put-Same p _ clients refl refl)
    ]

broadcast_loop-next :
    (message k : Text) (p : ℕ) (d : Dict Text ℕ) (clients : ℕ → Outgoing) (c : Outgoing)
    → send_or_drop message (clients p) ≡ returns c
    → broadcast_loop message ((k, p) ∷ d) clients ≡ broadcast_loop message d (put p c clients)
unfolding broadcast_loop
broadcast_loop-next message k p d clients c h =
    ap
      (λ o. elim o [ panics e ↦ panics e | returns x ↦ broadcast_loop message d (put p x clients) ])
      h

pub broadcast_loop-Same :
    (message : Text) (d : Dict Text ℕ) (clients : ℕ → Outgoing)
    → All (λ e. (clients e.1).closed ≡ false) d
    → (next : ℕ → Outgoing) × (broadcast_loop message d clients ≡ returns next) × Same clients next
unfolding broadcast_loop
broadcast_loop-Same message [] clients h =
    (clients, refl, record { id = λ p. refl; closed = λ p. refl })
broadcast_loop-Same message ((k, p) ∷ d) clients h =
    let (c, sends, one) = send_or_drop-Same message p clients h.0 in
    let still =
      All-imp (λ e. (clients e.1).closed ≡ false) (λ e. (put p c clients e.1).closed ≡ false)
        (λ e x. one.closed e.1 ∙ x) d h.1 in
    let (next, goes, more) = broadcast_loop-Same message d (put p c clients) still in
    (
      next,
      broadcast_loop-next message k p d clients c sends ∙ goes,
      record { id = λ q. more.id q ∙ one.id q; closed = λ q. more.closed q ∙ one.closed q },
    )

-- A request whose client is in the pool has not returned.
pub served : (phase : Phase) → IsInPool phase → IsServed phase
served waiting h = tt
served removing h = tt
served upgrading h = absurd h
served creating h = absurd h
served adding h = absurd h
served returned h = absurd h

-- A step that can be taken does not panic, and keeps the server safe.
abbrev pub IsFine : Option (Outcome Server) → Type 0
IsFine none = Unit
IsFine (some (panics e)) = ⊥
IsFine (some (returns t)) = IsSafe t

pub broadcast-returns :
    (message : Text) (pool : ClientPool) (next : ℕ → Outgoing)
    → broadcast_loop message pool.all pool.clients ≡ returns next
    → broadcast message pool ≡ returns (record pool { clients = next })
unfolding broadcast
broadcast-returns message pool next h =
    ap (λ o. elim o [ panics e ↦ panics e | returns x ↦ returns (record pool { clients = x }) ]) h

pub broadcast-IsFine :
    (message : Text) (s : Server)
    → IsSafe s
    → IsFine (some (with_pool (broadcast message s.pool) s))
unfolding with_pool
broadcast-IsFine message s h =
    let open_all =
      All-imp (λ e. IsInPool (s.phases e.1) × ((s.pool.clients e.1).id ≡ e.0))
        (λ e. (s.pool.clients e.1).closed ≡ false)
        (λ e x. h.unclosed e.1 (served (s.phases e.1) x.0)) s.pool.all h.entries in
    let (next, sends, same) = broadcast_loop-Same message s.pool.all s.pool.clients open_all in
    subst (λ o. IsFine (some (with_pool o s))) (sym (broadcast-returns message s.pool next sends))
      (clients-IsSafe s next same h)
