-- ===== src/Handler/Ends.antt =====
-- A request whose client has been added returns only after the client's channel has been closed.
use synk.Base.{
  ℕ, Text, Bool, true, false, Option, none, some, List, [], ◌∷◌, ◌≡◌, ◌≢◌, refl, sym, subst, inl,
  inr, All-imp, arith, if◌then◌else◌, nat_eq, text_eq,
}
use synk.Result.{Error, Outcome, returns, panics}
use synk.Pool.{put, add, broadcast}
use synk.Handler.{
  Phase, upgrading, creating, adding, waiting, removing, returned, Server, Event, upgrades, creates,
  adds, waits, removes, broadcasts, flows, move, with_pool, serve, step, run,
}
use synk.Handler.Entries.{IsSafe, IsInPool}
use synk.Handler.Broadcast.{IsFine, put-Same, served, broadcast_loop-Same, broadcast-returns}
use synk.Handler.Members.{put-here, add-IsSafe}
use synk.Handler.Safe.{step-IsFine, empty-IsSafe}
use synk.Handler.Tracked.{
  Tracked, clients-Tracked, add-Tracked, upgrade-Tracked, create-Tracked, wait-Tracked,
}
use synk.Handler.Removal.{Keeps, remove-Keeps}

module _ (Added : Type 0) (p : ℕ) (key : Text) where
  upgrades-Keeps :
      (q : ℕ) (e : Error) (s : Server) (phase : Phase)
      → s.phases q ≡ phase
      → Tracked Added p key s
      → Keeps Added p key (serve (upgrades q e) phase s)
  unfolding serve
  upgrades-Keeps q e s upgrading at h = upgrade-Tracked Added p key q e s at h
  upgrades-Keeps q e s phase at h = tt

  creates-Keeps :
      (q : ℕ) (e : Error) (s : Server) (phase : Phase)
      → s.phases q ≡ phase
      → Tracked Added p key s
      → Keeps Added p key (serve (creates q e) phase s)
  unfolding serve
  creates-Keeps q e s creating at h = create-Tracked Added p key q e s at h
  creates-Keeps q e s phase at h = tt

  adds-Keeps :
      (q : ℕ) (s : Server) (phase : Phase)
      → s.phases q ≡ phase
      → Tracked Added p key s
      → Keeps Added p key (serve (adds q) phase s)
  unfolding serve
  adds-Keeps q s adding at h = add-Tracked Added p key q s h
  adds-Keeps q s phase at h = tt

  waits-Keeps :
      (q : ℕ) (s : Server) (phase : Phase)
      → s.phases q ≡ phase
      → Tracked Added p key s
      → Keeps Added p key (serve (waits q) phase s)
  unfolding serve
  waits-Keeps q s waiting at h = wait-Tracked Added p key q s at h
  waits-Keeps q s phase at h = tt

  removes-Keeps :
      (q : ℕ) (s : Server) (phase : Phase)
      → s.phases q ≡ phase
      → IsSafe s
      → Tracked Added p key s
      → Keeps Added p key (serve (removes q) phase s)
  unfolding serve
  removes-Keeps q s removing at safe h = remove-Keeps Added p key q s at safe h
  removes-Keeps q s phase at safe h = tt

  flows-Keeps :
      (q : ℕ) (texts : List Text) (s : Server) (closed : Bool)
      → Tracked Added p key s
      → Keeps Added p key (
          if closed
          then none
          else some (
              returns (record s {
                pool = record s.pool {
                  clients =
                      put q (record (s.pool.clients q) { to_web_socket = texts }) s.pool.clients;
                };
              })))
  flows-Keeps q texts s true h = tt
  flows-Keeps q texts s false h =
      clients-Tracked Added p key s _
        (put-Same q (record (s.pool.clients q) { to_web_socket = texts }) s.pool.clients refl refl)
        h

  broadcast-Keeps :
      (message : Text) (s : Server)
      → IsSafe s
      → Tracked Added p key s
      → Keeps Added p key (some (with_pool (broadcast message s.pool) s))
  unfolding with_pool
  broadcast-Keeps message s safe h =
      let open_all =
        All-imp (λ e. IsInPool (s.phases e.1) × ((s.pool.clients e.1).id ≡ e.0))
          (λ e. (s.pool.clients e.1).closed ≡ false)
          (λ e x. safe.unclosed e.1 (served (s.phases e.1) x.0)) s.pool.all safe.entries in
      let (next, sends, same) = broadcast_loop-Same message s.pool.all s.pool.clients open_all in
      subst (λ o. Keeps Added p key (some (with_pool o s)))
        (sym (broadcast-returns message s.pool next sends))
        (clients-Tracked Added p key s next same h)

  step-Keeps :
      (event : Event) (s : Server)
      → IsSafe s
      → Tracked Added p key s
      → Keeps Added p key (step event s)
  unfolding step
  step-Keeps (upgrades q e) s safe h = upgrades-Keeps q e s (s.phases q) refl h
  step-Keeps (creates q e) s safe h = creates-Keeps q e s (s.phases q) refl h
  step-Keeps (adds q) s safe h = adds-Keeps q s (s.phases q) refl h
  step-Keeps (waits q) s safe h = waits-Keeps q s (s.phases q) refl h
  step-Keeps (removes q) s safe h = removes-Keeps q s (s.phases q) refl safe h
  step-Keeps (broadcasts message) s safe h = broadcast-Keeps message s safe h
  step-Keeps (flows q texts) s safe h = flows-Keeps q texts s (s.pool.clients q).closed h

  after-Tracked :
      (events : List Event) (o : Option (Outcome Server)) (u : Server)
      → IsFine o
      → Keeps Added p key o
      → ((t : Server)
          → IsSafe t
          → Tracked Added p key t
          → run events t ≡ some (returns u)
          → IsSafe u × Tracked Added p key u)
      → elim o [ none ↦ none | some (panics e) ↦ some (panics e) | some (returns t) ↦ run events t ]
        ≡ some (returns u)
      → IsSafe u × Tracked Added p key u
  after-Tracked events none u fine keeps f h = absurd (ground arith)
  after-Tracked events (some (panics e)) u fine keeps f h = absurd fine
  after-Tracked events (some (returns t)) u fine keeps f h = f t fine keeps h

  run-Tracked :
      (events : List Event) (s u : Server)
      → IsSafe s
      → Tracked Added p key s
      → run events s ≡ some (returns u)
      → IsSafe u × Tracked Added p key u
  unfolding run
  run-Tracked [] s u safe h e =
      let same : s ≡ u = ground arith in
      (subst IsSafe same safe, subst (Tracked Added p key) same h)
  run-Tracked (event ∷ events) s u safe h e =
      after-Tracked events (step event s) u (step-IsFine event s safe) (step-Keeps event s safe h)
        (λ t. run-Tracked events t u) e

-- From the step that adds the client
added-closed :
    (after : List Event) (p : ℕ) (key : Text) (s u : Server) (phase : Phase)
    → s.phases p ≡ phase
    → IsSafe s
    → Tracked ⊥ p key s
    → elim (serve (adds p) phase s) [
      | none ↦ none
      | some (panics e) ↦ some (panics e)
      | some (returns t) ↦ run after t
    ]
      ≡ some (returns u)
    → u.phases p ≡ returned
    → (u.pool.clients p).closed ≡ true
unfolding serve move
added-closed after p key s u adding at safe h e ended =
    let t = move p waiting (record s { pool = add p s.pool }) in
    let was = add-Tracked ⊥ p key p s h in
    let now : Tracked Unit p key t = record {
      id = was.id;
      others = was.others;
      held = was.held;
      stays = λ a. inl (subst IsInPool (sym (put-here p waiting s.phases)) tt);
    } in
    let later = (run-Tracked Unit p key after t u (add-IsSafe p s at safe) now e).1 in
    elim (later.stays tt) [ inl here ↦ absurd (subst IsInPool ended here) | inr closed ↦ closed ]
added-closed after p key s u upgrading at safe h e ended = absurd (ground arith)
added-closed after p key s u creating at safe h e ended = absurd (ground arith)
added-closed after p key s u waiting at safe h e ended = absurd (ground arith)
added-closed after p key s u removing at safe h e ended = absurd (ground arith)
added-closed after p key s u returned at safe h e ended = absurd (ground arith)

-- In a schedule from an empty pool while no channel is closed, a request that is before its upgrade
-- at first, whose client is added, and whose client's ID no other client has, has returned only if
-- the client's channel has been closed.
pub run-closed :
    (before after : List Event) (p : ℕ) (start s u : Server)
    → start.pool.all ≡ []
    → ((q : ℕ) → (start.pool.clients q).closed ≡ false)
    → ((q : ℕ) → q ≢ p → (start.pool.clients q).id ≢ (start.pool.clients p).id)
    → start.phases p ≡ upgrading
    → run before start ≡ some (returns s)
    → run (adds p ∷ after) s ≡ some (returns u)
    → u.phases p ≡ returned
    → (u.pool.clients p).closed ≡ true
unfolding run step
run-closed before after p start s u empty fresh own at first second ended =
    let tracked : Tracked ⊥ p (start.pool.clients p).id start = record {
      id = refl;
      others = own;
      held = λ here. absurd (subst IsInPool at here);
      stays = λ a. absurd a;
    } in
    let (safe, h) =
      run-Tracked ⊥ p (start.pool.clients p).id before start s (empty-IsSafe start empty fresh)
        tracked first in
    added-closed after p (start.pool.clients p).id s u (s.phases p) refl safe h second ended
