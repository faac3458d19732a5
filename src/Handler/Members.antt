-- ===== src/Handler/Members.antt =====
-- Adding a client to the pool and removing it keep the server safe.
use synk.Base.{
  ℕ, Text, true, false, Bool-cases, some, ◌≡◌, ◌≢◌, refl, sym, ap, subst, ◌∙◌, inl, inr, arith,
  nat_eq, text_eq,
}
use synk.Base.Dict
use synk.Base.Dict.{Dict}
use synk.Result.{returns}
use synk.Pool.{Outgoing, ClientPool, put, close_channel, add, remove}
use synk.Handler.{adding, waiting, removing, returned, Server, move, with_pool}
use synk.Handler.Entries.{
  IsSafe, IsInPool, put-cases, moved-entries, IsServed, All-absent, All-erase,
}
use synk.Handler.Broadcast.{IsFine}

pub put-here : {A : Type 0} (p : ℕ) (c : A) (at : ℕ → A) → put p c at p ≡ c
put-here p c at = elim (put-cases p p c at) [
  | inl (same, to) ↦ to
  | inr (other, to) ↦ absurd (other refl)
]

pub put-there : {A : Type 0} (p q : ℕ) (c : A) (at : ℕ → A) → q ≢ p → put p c at q ≡ at q
put-there p q c at n = elim (put-cases p q c at) [
  | inl (same, to) ↦ absurd (n same)
  | inr (other, to) ↦ to
]

pub add-IsSafe :
    (p : ℕ) (s : Server)
    → s.phases p ≡ adding
    → IsSafe s
    → IsSafe (move p waiting (record s { pool = add p s.pool }))
unfolding move add Dict.insert
add-IsSafe p s at h = record {
  entries = (
    (subst IsInPool (sym (put-here p waiting s.phases)) tt, refl),
    All-erase (λ e. IsInPool (put p waiting s.phases e.1) × ((s.pool.clients e.1).id ≡ e.0))
        (λ e. IsInPool (put p waiting s.phases e.1) × ((s.pool.clients e.1).id ≡ e.0))
        (s.pool.clients p).id (λ e x n. x) s.pool.all
        (moved-entries p waiting s.phases s.pool.clients s.pool.all (λ x. tt) h.entries),
  );
  unclosed = λ q is_served. elim (put-cases p q waiting s.phases) [
    | inl (same, to) ↦ h.unclosed q (subst IsServed (sym (ap s.phases same ∙ at)) tt)
    | inr (other, to) ↦ h.unclosed q (subst IsServed to is_served)
  ];
}

-- What the pool becomes where it has the client's ID.
unfoldable pub removed : ℕ → ClientPool → ClientPool
removed p pool = record {
  all = Dict.erase (pool.clients p).id pool.all;
  clients = put p (record (pool.clients p) { closed = true }) pool.clients;
}

pub remove_there :
    (p : ℕ) (pool : ClientPool)
    → Dict.contains (pool.clients p).id pool.all ≡ true
    → (pool.clients p).closed ≡ false
    → remove p pool ≡ returns (removed p pool)
unfolding remove close_channel removed
remove_there p pool there h = ground arith

pub remove_absent :
    (p : ℕ) (pool : ClientPool)
    → Dict.contains (pool.clients p).id pool.all ≡ false
    → remove p pool ≡ returns pool
unfolding remove
remove_absent p pool absent = ground arith

-- The entry of another client
other_entry :
    (p : ℕ) (s : Server) (next : ℕ → Outgoing) (e : Text × ℕ)
    → ((q : ℕ) → q ≢ p → next q ≡ s.pool.clients q)
    → IsInPool (s.phases e.1) × ((s.pool.clients e.1).id ≡ e.0)
    → e.0 ≢ (s.pool.clients p).id
    → IsInPool (put p returned s.phases e.1) × ((next e.1).id ≡ e.0)
other_entry p s next e same x n =
    let other : e.1 ≢ p = λ at. n (sym x.1 ∙ ap (λ q. (s.pool.clients q).id) at) in
    (
      subst IsInPool (sym (put-there p e.1 returned s.phases other)) x.0,
      ap (λ c. c.id) (same e.1 other) ∙ x.1,
    )

-- The channels of those that are still served
other_unclosed :
    (p : ℕ) (s : Server) (next : ℕ → Outgoing)
    → ((q : ℕ) → q ≢ p → next q ≡ s.pool.clients q)
    → IsSafe s
    → (q : ℕ) → IsServed (put p returned s.phases q)
    → (next q).closed ≡ false
other_unclosed p s next same h q is_served = elim (put-cases p q returned s.phases) [
  | inl (e, to) ↦ absurd (subst IsServed to is_served)
  | inr (other, to) ↦ ap (λ c. c.closed) (same q other) ∙ h.unclosed q (subst IsServed to is_served)
]

pub remove-IsFine :
    (p : ℕ) (s : Server)
    → s.phases p ≡ removing
    → IsSafe s
    → IsFine (some (with_pool (remove p s.pool) (move p returned s)))
unfolding with_pool move removed
remove-IsFine p s at h =
    let key = (s.pool.clients p).id in
    elim (Bool-cases (Dict.contains key s.pool.all)) [
      | inl there ↦
          let next = put p (record (s.pool.clients p) { closed = true }) s.pool.clients in
          let same = λ (q : ℕ) (n : q ≢ p).
            put-there p q (record (s.pool.clients p) { closed = true }) s.pool.clients n in
          let unclosed = h.unclosed p (subst IsServed (sym at) tt) in
          subst (λ o. IsFine (some (with_pool o (move p returned s))))
            (sym (remove_there p s.pool there unclosed))
            (record {
              entries =
                  All-erase (λ e. IsInPool (s.phases e.1) × ((s.pool.clients e.1).id ≡ e.0))
                    (λ e. IsInPool (put p returned s.phases e.1) × ((next e.1).id ≡ e.0)) key
                    (λ e x n. other_entry p s next e same x n) s.pool.all h.entries;
              unclosed = other_unclosed p s next same h;
            })
      | inr absent ↦
          let same = λ (q : ℕ) (n : q ≢ p). refl {a = s.pool.clients q} in
          subst (λ o. IsFine (some (with_pool o (move p returned s))))
            (sym (remove_absent p s.pool absent))
            (record {
              entries =
                  All-absent (λ e. IsInPool (s.phases e.1) × ((s.pool.clients e.1).id ≡ e.0))
                    (λ e. IsInPool (put p returned s.phases e.1) × ((s.pool.clients e.1).id ≡ e.0))
                    key (λ e x n. other_entry p s s.pool.clients e same x n) s.pool.all absent
                    h.entries;
              unclosed = other_unclosed p s s.pool.clients same h;
            })
    ]
