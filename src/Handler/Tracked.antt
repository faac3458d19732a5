-- ===== src/Handler/Tracked.antt =====
-- One request, whose client's ID is its own, and what becomes of its client's channel.
use synk.Base.{
  ℕ, Text, true, none, some, ◌≡◌, ◌≢◌, sym, ap, subst, ◌∙◌, ◌⊎◌, inl, inr, arith, nat_eq, text_eq,
}
use synk.Base.Dict
use synk.Base.Dict.{Dict, contains-erase, contains-insert}
use synk.Result.{Error}
use synk.Pool.{Outgoing, add}
use synk.Handler.{
  Phase, upgrading, creating, adding, waiting, removing, returned, Server, move, on_upgrade,
  on_create,
}
use synk.Handler.Entries.{IsInPool, put-cases}
use synk.Handler.Broadcast.{Same}

-- No other client has the ID of the client of `p`. If its request is in the pool, the pool has it;
-- and if it has been (`Added`), then it still is, or its channel has been closed.
pub record Tracked (Added : Type 0) (p : ℕ) (key : Text) (s : Server) : Type 0 where
  pub id : (s.pool.clients p).id ≡ key
  pub others : (q : ℕ) → q ≢ p → (s.pool.clients q).id ≢ key
  pub held : IsInPool (s.phases p) → Dict.contains key s.pool.all ≡ true
  pub stays : Added → IsInPool (s.phases p) ⊎ ((s.pool.clients p).closed ≡ true)

module _ (Added : Type 0) (p : ℕ) (key : Text) where
  pub clients-Tracked :
      (s : Server) (next : ℕ → Outgoing)
      → Same s.pool.clients next
      → Tracked Added p key s
      → Tracked Added p key (record s { pool = record s.pool { clients = next } })
  clients-Tracked s next same h = record {
    id = same.id p ∙ h.id;
    others = λ q n e. h.others q n (sym (same.id q) ∙ e);
    held = h.held;
    stays =
        λ a. elim (h.stays a) [ inl here ↦ inl here | inr closed ↦ inr (same.closed p ∙ closed) ];
  }

  -- A request goes on, and stays in the pool if it was there.
  pub move-Tracked :
      (q : ℕ) (phase : Phase) (s : Server)
      → (q ≡ p → IsInPool (s.phases q) → IsInPool phase)
      → (q ≡ p → IsInPool phase → Dict.contains key s.pool.all ≡ true)
      → Tracked Added p key s
      → Tracked Added p key (move q phase s)
  unfolding move
  move-Tracked q phase s f g h = record {
    id = h.id;
    others = h.others;
    held = λ here. elim (put-cases q p phase s.phases) [
      | inl (same, to) ↦ g (sym same) (subst IsInPool to here)
      | inr (other, to) ↦ h.held (subst IsInPool to here)
    ];
    stays = λ a. elim (h.stays a) [
      | inl here ↦ inl (elim (put-cases q p phase s.phases) [
        | inl (same, to) ↦
            subst IsInPool (sym to) (f (sym same) (subst (λ r. IsInPool (s.phases r)) same here))
        | inr (other, to) ↦ subst IsInPool (sym to) here
      ])
      | inr closed ↦ inr closed
    ];
  }

  -- The pool changes but keeps the client of `p`.
  pub pool-Tracked :
      (all : Dict Text ℕ) (s : Server)
      → (Dict.contains key s.pool.all ≡ true → Dict.contains key all ≡ true)
      → Tracked Added p key s
      → Tracked Added p key (record s { pool = record s.pool { all = all } })
  pool-Tracked all s f h = record {
    id = h.id;
    others = h.others;
    held = λ here. f (h.held here);
    stays = h.stays;
  }

  insert-contains :
      (j : Text) (q : ℕ) (all : Dict Text ℕ)
      → Dict.contains key all ≡ true
      → Dict.contains key (Dict.insert j q all) ≡ true
  insert-contains j q all h = contains-insert key j q all ∙ ground arith

  insert-contains-here :
      (j : Text) (q : ℕ) (all : Dict Text ℕ)
      → j ≡ key
      → Dict.contains key (Dict.insert j q all) ≡ true
  insert-contains-here j q all h = contains-insert key j q all ∙ ground arith

  pub add-Tracked :
      (q : ℕ) (s : Server)
      → Tracked Added p key s
      → Tracked Added p key (move q waiting (record s { pool = add q s.pool }))
  unfolding add
  add-Tracked q s h =
      move-Tracked q waiting (record s { pool = add q s.pool }) (λ same x. tt)
        (λ same x.
          insert-contains-here (s.pool.clients q).id q s.pool.all
            (ap (λ r. (s.pool.clients r).id) same ∙ h.id))
        (pool-Tracked _ s (insert-contains (s.pool.clients q).id q s.pool.all) h)

  pub upgrade-Tracked :
      (q : ℕ) (e : Error) (s : Server)
      → s.phases q ≡ upgrading
      → Tracked Added p key s
      → Tracked Added p key (on_upgrade q e s)
  unfolding on_upgrade
  upgrade-Tracked q none s at h =
      move-Tracked q creating s (λ same x. absurd (subst IsInPool at x)) (λ same x. absurd x) h
  upgrade-Tracked q (some e) s at h =
      move-Tracked q returned s (λ same x. absurd (subst IsInPool at x)) (λ same x. absurd x) h

  pub create-Tracked :
      (q : ℕ) (e : Error) (s : Server)
      → s.phases q ≡ creating
      → Tracked Added p key s
      → Tracked Added p key (on_create q e s)
  unfolding on_create move
  create-Tracked q none s at h =
      move-Tracked q adding s (λ same x. absurd (subst IsInPool at x)) (λ same x. absurd x) h
  create-Tracked q (some e) s at h =
      let moved =
        move-Tracked q returned s (λ same x. absurd (subst IsInPool at x)) (λ same x. absurd x) h in
      record { id = moved.id; others = moved.others; held = moved.held; stays = moved.stays }

  pub wait-Tracked :
      (q : ℕ) (s : Server)
      → s.phases q ≡ waiting
      → Tracked Added p key s
      → Tracked Added p key (move q removing s)
  wait-Tracked q s at h =
      move-Tracked q removing s (λ same x. tt)
        (λ same x. h.held (subst IsInPool (sym (sym (ap s.phases same) ∙ at)) tt)) h
