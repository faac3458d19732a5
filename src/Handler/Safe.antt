-- ===== src/Handler/Safe.antt =====
-- The pool and the handlers together: no channel is closed twice, and nothing is sent to the channel
-- of a client that the pool has closed.
use synk.Base.{
  ℕ, Text, Bool, true, false, Option, none, some, List, [], ◌∷◌, ◌≡◌, ◌≢◌, refl, sym, subst, All,
  if◌then◌else◌, nat_eq, text_eq,
}
use synk.Result.{Error, Outcome, returns, panics}
use synk.Pool.{put}
use synk.Handler.{
  Phase, upgrading, creating, adding, waiting, removing, returned, Server, Event, upgrades, creates,
  adds, waits, removes, broadcasts, flows, move, on_upgrade, on_create, serve, step, run,
}
use synk.Handler.Entries.{IsSafe, IsInPool, IsServed, move-IsSafe}
use synk.Handler.Broadcast.{broadcast-IsFine, clients-IsSafe, put-Same, IsFine}
use synk.Handler.Members.{remove-IsFine, add-IsSafe}

create-IsSafe :
    (p : ℕ) (e : Error) (s : Server) → s.phases p ≡ creating → IsSafe s → IsSafe (on_create p e s)
unfolding on_create move
create-IsSafe p none s at h =
    move-IsSafe p adding s (λ x. absurd (subst IsInPool at x)) (λ x. subst IsServed (sym at) tt) h
create-IsSafe p (some e) s at h =
    let moved = move-IsSafe p returned s (λ x. absurd (subst IsInPool at x)) (λ x. absurd x) h in
    record { entries = moved.entries; unclosed = moved.unclosed }

upgrade-IsSafe :
    (p : ℕ) (e : Error) (s : Server) → s.phases p ≡ upgrading → IsSafe s → IsSafe (on_upgrade p e s)
unfolding on_upgrade
upgrade-IsSafe p none s at h =
    move-IsSafe p creating s (λ x. absurd (subst IsInPool at x)) (λ x. subst IsServed (sym at) tt) h
upgrade-IsSafe p (some e) s at h =
    move-IsSafe p returned s (λ x. absurd (subst IsInPool at x)) (λ x. absurd x) h

upgrades-IsFine :
    (p : ℕ) (e : Error) (s : Server) (phase : Phase)
    → s.phases p ≡ phase
    → IsSafe s
    → IsFine (serve (upgrades p e) phase s)
unfolding serve
upgrades-IsFine p e s upgrading at h = upgrade-IsSafe p e s at h
upgrades-IsFine p e s phase at h = tt

creates-IsFine :
    (p : ℕ) (e : Error) (s : Server) (phase : Phase)
    → s.phases p ≡ phase
    → IsSafe s
    → IsFine (serve (creates p e) phase s)
unfolding serve
creates-IsFine p e s creating at h = create-IsSafe p e s at h
creates-IsFine p e s phase at h = tt

adds-IsFine :
    (p : ℕ) (s : Server) (phase : Phase)
    → s.phases p ≡ phase
    → IsSafe s
    → IsFine (serve (adds p) phase s)
unfolding serve
adds-IsFine p s adding at h = add-IsSafe p s at h
adds-IsFine p s phase at h = tt

waits-IsFine :
    (p : ℕ) (s : Server) (phase : Phase)
    → s.phases p ≡ phase
    → IsSafe s
    → IsFine (serve (waits p) phase s)
unfolding serve
waits-IsFine p s waiting at h =
    move-IsSafe p removing s (λ x. tt) (λ x. subst IsServed (sym at) tt) h
waits-IsFine p s phase at h = tt

removes-IsFine :
    (p : ℕ) (s : Server) (phase : Phase)
    → s.phases p ≡ phase
    → IsSafe s
    → IsFine (serve (removes p) phase s)
unfolding serve
removes-IsFine p s removing at h = remove-IsFine p s at h
removes-IsFine p s phase at h = tt

flows-IsFine :
    (p : ℕ) (texts : List Text) (s : Server) (closed : Bool)
    → IsSafe s
    → IsFine (
        if closed
        then none
        else some (
            returns (record s {
              pool = record s.pool {
                clients =
                    put p (record (s.pool.clients p) { to_web_socket = texts }) s.pool.clients;
              };
            })))
flows-IsFine p texts s true h = tt
flows-IsFine p texts s false h =
    clients-IsSafe s _
      (put-Same p (record (s.pool.clients p) { to_web_socket = texts }) s.pool.clients refl refl) h

pub step-IsFine : (event : Event) (s : Server) → IsSafe s → IsFine (step event s)
unfolding step
step-IsFine (upgrades p e) s h = upgrades-IsFine p e s (s.phases p) refl h
step-IsFine (creates p e) s h = creates-IsFine p e s (s.phases p) refl h
step-IsFine (adds p) s h = adds-IsFine p s (s.phases p) refl h
step-IsFine (waits p) s h = waits-IsFine p s (s.phases p) refl h
step-IsFine (removes p) s h = removes-IsFine p s (s.phases p) refl h
step-IsFine (broadcasts message) s h = broadcast-IsFine message s h
step-IsFine (flows p texts) s h = flows-IsFine p texts s (s.pool.clients p).closed h

after-IsFine :
    (next : Server → Option (Outcome Server)) (o : Option (Outcome Server))
    → ((t : Server) → IsSafe t → IsFine (next t))
    → IsFine o
    → IsFine
        (elim o [ none ↦ none | some (panics e) ↦ some (panics e) | some (returns t) ↦ next t ])
after-IsFine next none f fine = tt
after-IsFine next (some (panics e)) f fine = fine
after-IsFine next (some (returns t)) f fine = f t fine

run-IsFine : (events : List Event) (s : Server) → IsSafe s → IsFine (run events s)
unfolding run
run-IsFine [] s h = h
run-IsFine (event ∷ events) s h =
    after-IsFine (run events) (step event s) (run-IsFine events) (step-IsFine event s h)

pub empty-IsSafe :
    (s : Server) → s.pool.all ≡ [] → ((p : ℕ) → (s.pool.clients p).closed ≡ false) → IsSafe s
empty-IsSafe s empty fresh = record {
  entries =
      subst (All (λ x. IsInPool (s.phases x.1) × ((s.pool.clients x.1).id ≡ x.0))) (sym empty) tt;
  unclosed = λ p is_served. fresh p;
}

-- In every schedule of requests and broadcasts, from a pool that is empty while no channel is
-- closed, the goroutine of the pool never panics: it closes no channel twice and sends to no closed
-- one, even if clients have the same ID.
pub run_returns :
    (events : List Event) (s : Server) (e : Text)
    → s.pool.all ≡ []
    → ((p : ℕ) → (s.pool.clients p).closed ≡ false)
    → run events s ≢ some (panics e)
run_returns events s e empty fresh h =
    subst IsFine h (run-IsFine events s (empty-IsSafe s empty fresh))
