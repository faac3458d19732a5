-- ===== src/Replica/Versions.antt =====
-- The versions of an object in its life: how many times it is modified, and which diffs are older
-- than what a browser has.
use synk.Base.{
  ℕ, ◌+◌, ◌%◌, ◌^◌, ◌<◌, Text, Bool, true, false, List, ◌≡◌, ◌≢◌, refl, sym, ap, ◌∙◌, arith,
}
use synk.Object.{Object, next_version}
use synk.Replica.Mutator.{creates, modifies, deletes, Mutator, IsMutator, Changed, tells-fresh}
use synk.Replica.History.{
  Scene, Step, edits, prepares, calls, calls_other, writes, History, now, later, call,
}

-- Fewer than 2 ^ 64 versions before a version, none is the one after it.
earlier :
    (u a v n : ℕ)
    → a ≡ next_version u
    → v % 2 ^ 64 ≡ (a + n) % 2 ^ 64
    → 1 + n < 2 ^ 64
    → a ≢ next_version v
earlier u a v n made e few h = omega (arith, made, e, few, h)

false-true : (b : Bool) → b ≡ false → b ≡ true → ⊥
false-true b h e = cc

module _ {O D W : Type 0} (I : Object O D) (M : Mutator O W) (id : Text) where
  -- How often the step modifies the object
  abbrev pub modified_in : {s t : Scene O W} → Step I M id s t → ℕ
  modified_in (calls modifies next allowed plain due ok got e) = 1
  modified_in _ = 0

  abbrev pub modified : {s t : Scene O W} → History I M id s t → ℕ
  modified (now s) = 0
  modified (later s m t step rest) = modified_in step + modified rest

  abbrev pub KeptBy : {s t : Scene O W} → Step I M id s t → Type 0
  KeptBy (calls deletes next allowed plain due ok got e) = ⊥
  KeptBy _ = Unit

  -- The object is not deleted.
  abbrev pub Kept : {s t : Scene O W} → History I M id s t → Type 0
  Kept (now s) = Unit
  Kept (later s m t step rest) = KeptBy step × Kept rest

  module _ (ops : IsMutator I M) where
    abbrev VersionAfter : (s t : Scene O W) → ℕ → Type 0
    VersionAfter s t n =
        (t.live ≡ true) × (I.version t.object % 2 ^ 64 ≡ (I.version s.object + n) % 2 ^ 64)

    -- The object has the same version.
    same_version :
        (s t u : Scene O W)
        → t ≡ u
        → u.live ≡ true
        → I.version u.object ≡ I.version s.object
        → VersionAfter s t 0
    same_version s t u e live same =
        (ap (λ x. x.live) e ∙ live, ap (λ x. I.version x.object % 2 ^ 64) e ∙ (omega (arith, same)))

    Changed-version :
        (s t u : Scene O W) (out : List (Text × Text))
        → t ≡ u
        → u.live ≡ true
        → Changed I s.object u.object out
        → VersionAfter s t 1
    Changed-version s t u out e live told = (
      ap (λ x. x.live) e ∙ live,
      ap (λ x. I.version x.object % 2 ^ 64) e ∙ (omega (arith, told.version)),
    )

    -- Each Modify adds one to the version.
    version-step :
        (s t : Scene O W) (step : Step I M id s t)
        → KeptBy step
        → s.live ≡ true
        → VersionAfter s t (modified_in step)
    version-step s t (edits p live edited e) kept h =
        same_version s t (record s { object = p }) e h edited.version
    version-step s t (prepares p gone e) kept h = cc
    version-step s t (calls (creates draws) next allowed plain due ok got e) kept h =
        absurd (false-true s.live due.0 h)
    version-step s t (calls modifies next allowed plain due ok got e) kept h =
        Changed-version s t _ _ e refl
          (tells-fresh I M ops modifies (record { object = s.object; world = s.world }) allowed ok)
    version-step s t (calls deletes next allowed plain due ok got e) kept h = absurd kept
    version-step s t (calls_other c q next allowed plain other ok got e) kept h =
        same_version s t _ e h refl
    version-step s t (writes b bs first e) kept h = same_version s t _ e h refl

    version-History :
        (s t : Scene O W) (history : History I M id s t)
        → Kept history
        → s.live ≡ true
        → VersionAfter s t (modified history)
    version-History s t (now _) kept h = (h, omega arith)
    version-History s t (later _ m _ step rest) kept h =
        let (live, one) = version-step s m step kept.0 h in
        let (done, all) = version-History m t rest kept.1 live in (done, omega (arith, one, all))

    -- The diff of the step is not for the version.
    abbrev pub NotFor : ℕ → (s t : Scene O W) → Step I M id s t → Type 0
    NotFor v s t (calls modifies next allowed plain due ok got e) =
        I.version (call I M id modifies s.object s.world).1.object ≢ next_version v
    NotFor v s t _ = Unit

    abbrev pub NoneFor : ℕ → (s t : Scene O W) → History I M id s t → Type 0
    NoneFor v s t (now _) = Unit
    NoneFor v s t (later _ m _ step rest) = NotFor v s m step × NoneFor v m t rest

    NotFor-version :
        (s m t : Scene O W) (step : Step I M id s m) (rest : History I M id m t)
        → KeptBy step
        → Kept rest
        → modified_in step + modified rest < 2 ^ 64
        → NotFor (I.version t.object) s m step
    NotFor-version s m t (calls modifies next allowed plain due ok got e) rest kept stays few =
        let told =
          tells-fresh I M ops modifies (record { object = s.object; world = s.world }) allowed ok in
        let (live, all) = version-History m t rest stays (ap (λ x. x.live) e) in
        let made = ap (λ x. I.version x.object) e in
        earlier (I.version s.object) _ (I.version t.object) (modified rest) told.version
          (rw (sym made) all) few
    NotFor-version s m t (edits p live edited e) rest kept stays few = tt
    NotFor-version s m t (prepares p gone e) rest kept stays few = tt
    NotFor-version s m t (calls (creates draws) next allowed plain due ok got e) rest kept stays
          few =
        tt
    NotFor-version s m t (calls deletes next allowed plain due ok got e) rest kept stays few = tt
    NotFor-version s m t (calls_other c q next allowed plain other ok got e) rest kept stays few =
        tt
    NotFor-version s m t (writes b bs first e) rest kept stays few = tt

    -- Before an object has its version at the end, no diff is for what comes next; a counter of 64
    -- bits has no time to come round.
    pub NoneFor-version :
        (s t : Scene O W) (history : History I M id s t)
        → Kept history
        → modified history < 2 ^ 64
        → NoneFor (I.version t.object) s t history
    NoneFor-version s t (now _) kept few = tt
    NoneFor-version s t (later _ m _ step rest) kept few = (
      NotFor-version s m t step rest kept.0 kept.1 few,
      NoneFor-version m t rest kept.1 (omega (arith, few)),
    )
