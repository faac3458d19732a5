-- ===== src/Redis/Memory.antt =====
-- A Redis in memory, whose state is what it holds. Its SET with NX looks at the strings only.
use synk.Base.{Text, Bool, true, false, none, some, [], refl, arith}
use synk.Result.{Result, ok}
use synk.Redis.{set, View, act, run, Redis, IsRedis}

-- An empty server
abbrev pub empty_view : View
empty_view = record { string = λ k. none; member = λ k m. false; log = [] }

set_if_free : Text → Text → View → Result Bool × View
set_if_free k v s = elim (s.string k) [
  | none ↦ (ok true, act (set k v) s)
  | some old ↦ (ok false, s)
]

unfoldable pub memory : Redis View
unfolding set_if_free
memory = record {
  call = λ c s. (ok true, act c s);
  set_nx = set_if_free;
  eval = λ f s. f s;
  transact = λ cs s. (none, run cs s);
  view = λ s. s;
}

-- It keeps what `IsRedis` promises.
pub memory-IsRedis : IsRedis memory
unfolding memory set_if_free
memory-IsRedis = record {
  view-call = λ c w b h f. refl;
  set_nx_nil = λ k v w h. ground arith;
  view-set_nx = λ k v w h. ground arith;
  eval_lem = λ f w t h. refl;
  view-transact = λ cs w h f. refl;
}
