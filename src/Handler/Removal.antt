-- ===== src/Handler/Removal.antt =====
-- The pool removes a client: the tracked one, or another.
use synk.Base.{
  ℕ, Text, Bool, true, false, Bool-cases, Option, none, some, ◌≡◌, ◌≢◌, sym, ap, subst, ◌∙◌, inl,
  inr, arith, nat_eq, text_eq,
}
use synk.Base.Dict
use synk.Base.Dict.{Dict, contains-erase, contains-insert}
use synk.Result.{Outcome, returns, panics}
use synk.Pool.{Outgoing, put, remove}
use synk.Handler.{removing, returned, Server, move, with_pool}
use synk.Handler.Entries.{IsSafe, IsInPool, IsServed, put-cases}
use synk.Handler.Members.{put-here, put-there, removed, remove_there, remove_absent}
use synk.Handler.Tracked.{Tracked, move-Tracked}

no_yes : ◌≡◌ {A = Bool} false true → ⊥
no_yes h = ground arith

module _ (Added : Type 0) (p : ℕ) (key : Text) where
  erase-contains :
      (j : Text) (all : Dict Text ℕ)
      → j ≢ key
      → Dict.contains key all ≡ true
      → Dict.contains key (Dict.erase j all) ≡ true
  erase-contains j all n h = contains-erase key j all ∙ ground arith

  -- Closing a channel leaves the IDs.
  closed-id :
      (q r : ℕ) (clients : ℕ → Outgoing)
      → (put q (record (clients q) { closed = true }) clients r).id ≡ (clients r).id
  closed-id q r clients = elim (put-cases q r (record (clients q) { closed = true }) clients) [
    | inl (same, to) ↦ ap (λ c. c.id) to ∙ ap (λ x. (clients x).id) (sym same)
    | inr (other, to) ↦ ap (λ c. c.id) to
  ]

  -- The pool removes another client, or that of `p`.
  other-Tracked :
      (q : ℕ) (s : Server)
      → q ≢ p
      → Tracked Added p key s
      → Tracked Added p key (move q returned (record s { pool = removed q s.pool }))
  unfolding removed move
  other-Tracked q s n h =
      let back = put-there q p returned s.phases (λ e. n (sym e)) in
      let kept =
        put-there q p (record (s.pool.clients q) { closed = true }) s.pool.clients
          (λ e. n (sym e)) in
      record {
        id = closed-id q p s.pool.clients ∙ h.id;
        others = λ r m e. h.others r m (sym (closed-id q r s.pool.clients) ∙ e);
        held = λ here.
            erase-contains (s.pool.clients q).id s.pool.all (h.others q n)
              (h.held (subst IsInPool back here));
        stays = λ a. elim (h.stays a) [
          | inl here ↦ inl (subst IsInPool (sym back) here)
          | inr closed ↦ inr (ap (λ c. c.closed) kept ∙ closed)
        ];
      }

  own-Tracked :
      (s : Server)
      → Tracked Added p key s
      → Tracked Added p key (move p returned (record s { pool = removed p s.pool }))
  unfolding removed move
  own-Tracked s h = record {
    id = closed-id p p s.pool.clients ∙ h.id;
    others = λ r m e. h.others r m (sym (closed-id p r s.pool.clients) ∙ e);
    held = λ here. absurd (subst IsInPool (put-here p returned s.phases) here);
    stays = λ a. inr (
        ap (λ c. c.closed)
          (put-here p (record (s.pool.clients p) { closed = true }) s.pool.clients));
  }

  -- A step that returns a server keeps track.
  abbrev pub Keeps : Option (Outcome Server) → Type 0
  Keeps none = Unit
  Keeps (some (panics e)) = Unit
  Keeps (some (returns t)) = Tracked Added p key t

  removed-Keeps :
      (q : ℕ) (s : Server)
      → Dict.contains (s.pool.clients q).id s.pool.all ≡ true
      → (s.pool.clients q).closed ≡ false
      → Tracked Added p key s
      → Keeps (some (with_pool (remove q s.pool) (move q returned s)))
  unfolding with_pool move
  removed-Keeps q s there unclosed h =
      subst (λ o. Keeps (some (with_pool o (move q returned s))))
        (sym (remove_there q s.pool there unclosed))
        (elim (nat_eq.dec q p) [
          | yes same ↦
              subst
                (λ r. Tracked Added p key (move r returned (record s { pool = removed r s.pool })))
                (sym same) (own-Tracked s h)
          | no n ↦ other-Tracked q s n h
        ])

  absent-Keeps :
      (q : ℕ) (s : Server)
      → s.phases q ≡ removing
      → Dict.contains (s.pool.clients q).id s.pool.all ≡ false
      → Tracked Added p key s
      → Keeps (some (with_pool (remove q s.pool) (move q returned s)))
  unfolding with_pool move
  absent-Keeps q s at absent h =
      subst (λ o. Keeps (some (with_pool o (move q returned s))))
        (sym (remove_absent q s.pool absent))
        (move-Tracked Added p key q returned s
          (λ same x. absurd (
            no_yes (
              sym absent
              ∙ ap (λ k. Dict.contains k s.pool.all) (ap (λ r. (s.pool.clients r).id) same ∙ h.id)
              ∙ h.held (subst IsInPool (ap s.phases same) x))))
          (λ same x. absurd x) h)

  pub remove-Keeps :
      (q : ℕ) (s : Server)
      → s.phases q ≡ removing
      → IsSafe s
      → Tracked Added p key s
      → Keeps (some (with_pool (remove q s.pool) (move q returned s)))
  remove-Keeps q s at safe h = elim (Bool-cases (Dict.contains (s.pool.clients q).id s.pool.all)) [
    | inl there ↦ removed-Keeps q s there (safe.unclosed q (subst IsServed (sym at) tt)) h
    | inr absent ↦ absent-Keeps q s at absent h
  ]
