-- ===== src/Handler/Entries.antt =====
-- What the handlers and the pool keep of each other, and a request that goes on.
use synk.Base.{
  ℕ, Text, true, false, [], ◌∷◌, ◌≡◌, ◌≢◌, sym, subst, ◌⊎◌, inl, inr, All, All-imp, arith, ◌==◌,
  nat_eq, text_eq,
}
use synk.Base.Dict
use synk.Base.Dict.{Dict}
use synk.Pool.{Outgoing, put}
use synk.Handler.{Phase, waiting, removing, returned, Server, move}

pub put-cases :
    {A : Type 0} (p q : ℕ) (c : A) (at : ℕ → A)
    → ((q ≡ p) × (put p c at q ≡ c)) ⊎ ((q ≢ p) × (put p c at q ≡ at q))
unfolding put
put-cases p q c at = ground arith

-- A request whose client is in the pool, or may be
abbrev pub IsInPool : Phase → Type 0
IsInPool waiting = Unit
IsInPool removing = Unit
IsInPool _ = ⊥

-- A request that has not returned
abbrev pub IsServed : Phase → Type 0
IsServed returned = ⊥
IsServed _ = Unit

-- Every client of the pool is there under its ID, and its request waits or is about to remove it;
-- the pool has closed no channel of a request that is still served.
pub record IsSafe (s : Server) : Type 0 where
  pub entries : All (λ e. IsInPool (s.phases e.1) × ((s.pool.clients e.1).id ≡ e.0)) s.pool.all
  pub unclosed : (p : ℕ) → IsServed (s.phases p) → (s.pool.clients p).closed ≡ false

eq-cases : (j k : Text) → ((j ≡ k) × ((j == k) ≡ true)) ⊎ ((j ≢ k) × ((j == k) ≡ false))
eq-cases j k = ground arith

pub All-erase {κ μ} :
    (P : Text × ℕ → Type κ) (Q : Text × ℕ → Type μ) (k : Text)
    → ((e : Text × ℕ) → P e → e.0 ≢ k → Q e)
    → (d : Dict Text ℕ) → All P d
    → All Q (Dict.erase k d)
unfolding Dict.erase
All-erase P Q k f [] h = tt
All-erase P Q k f ((j, v) ∷ d) h = elim (eq-cases k j) [
  | inl (e, test) ↦ rw test (All-erase P Q k f d h.1)
  | inr (n, test) ↦ rw test (f (j, v) h.0 (λ e. n (sym e)), All-erase P Q k f d h.1)
]

pub All-absent {κ μ} :
    (P : Text × ℕ → Type κ) (Q : Text × ℕ → Type μ) (k : Text)
    → ((e : Text × ℕ) → P e → e.0 ≢ k → Q e)
    → (d : Dict Text ℕ) → Dict.contains k d ≡ false
    → All P d
    → All Q d
unfolding Dict.contains Dict.lookup
All-absent P Q k f [] absent h = tt
All-absent P Q k f ((j, v) ∷ d) absent h = elim (eq-cases k j) [
  | inl (e, test) ↦ absurd (ground arith)
  | inr (n, test) ↦ (f (j, v) h.0 (λ e. n (sym e)), All-absent P Q k f d (ground arith) h.1)
]

-- A request goes on.
pub moved-entries :
    (p : ℕ) (phase : Phase) (phases : ℕ → Phase) (clients : ℕ → Outgoing) (d : Dict Text ℕ)
    → (IsInPool (phases p) → IsInPool phase)
    → All (λ e. IsInPool (phases e.1) × ((clients e.1).id ≡ e.0)) d
    → All (λ e. IsInPool (put p phase phases e.1) × ((clients e.1).id ≡ e.0)) d
moved-entries p phase phases clients d f h =
    All-imp (λ e. IsInPool (phases e.1) × ((clients e.1).id ≡ e.0))
      (λ e. IsInPool (put p phase phases e.1) × ((clients e.1).id ≡ e.0))
      (λ e x. elim (put-cases p e.1 phase phases) [
        | inl (same, to) ↦
            (subst IsInPool (sym to) (f (subst (λ q. IsInPool (phases q)) same x.0)), x.1)
        | inr (other, to) ↦ (subst IsInPool (sym to) x.0, x.1)
      ])
      d h

pub move-IsSafe :
    (p : ℕ) (phase : Phase) (s : Server)
    → (IsInPool (s.phases p) → IsInPool phase)
    → (IsServed phase → IsServed (s.phases p))
    → IsSafe s
    → IsSafe (move p phase s)
unfolding move
move-IsSafe p phase s f g h = record {
  entries = moved-entries p phase s.phases s.pool.clients s.pool.all f h.entries;
  unclosed = λ q served. elim (put-cases p q phase s.phases) [
    | inl (same, to) ↦
        h.unclosed q (subst (λ r. IsServed (s.phases r)) (sym same) (g (subst IsServed to served)))
    | inr (other, to) ↦ h.unclosed q (subst IsServed to served)
  ];
}
