-- ===== src/Settings.antt =====
-- Interfaces.go: the addresses and credentials, from the environment and then from init.
use synk.Base.{
  Text, codes, Bool, true, false, not, ◌||◌, Option-cases, none, some, [], ◌∷◌, ◌++◌, ◌==◌, ◌≡◌,
  ◌≢◌, ◌↔◌, ◌⊎◌, inl, inr, text_eq, if◌then◌else◌, arith,
}
use synk.Base.Index.{index}

pub record Settings : Type 0 where
  pub redis_addr : Text
  pub mongo_addr : Text
  pub mongo_db_name : Text
  pub mongo_user : Text
  pub mongo_pass : Text
  pub mongo_login_required : Bool

-- The package's variables; `getenv` is `os.Getenv`.
unfoldable pub from_env : (Text → Text) → Settings
from_env getenv = record {
  redis_addr = getenv (codes "SYNK_REDIS_ADDR");
  mongo_addr = getenv (codes "SYNK_MONGO_ADDR");
  mongo_db_name = getenv (codes "SYNK_MONGO_DB");
  mongo_user = getenv (codes "SYNK_MONGO_USER");
  mongo_pass = getenv (codes "SYNK_MONGO_PASS");
  mongo_login_required = false;
}

-- The three tests of init
unfoldable pub with_port : Text → Text
unfolding index
with_port addr = elim (index addr b':') [ none ↦ addr ++ codes ":6379" | some i ↦ addr ]

unfoldable pub or_default : Text → Text → Text
unfolding text_eq
or_default value default = if value == [] then default else value

unfoldable pub login_required : Text → Text → Bool → Bool
unfolding text_eq
login_required user pass before = if not (user == []) || not (pass == []) then true else before

unfoldable pub init : Settings → Settings
unfolding with_port or_default login_required
init s = record s {
  redis_addr = with_port s.redis_addr;
  mongo_addr = or_default s.mongo_addr (codes "localhost");
  mongo_db_name = or_default s.mongo_db_name (codes "synk");
  mongo_login_required = login_required s.mongo_user s.mongo_pass s.mongo_login_required;
}

-- What can be dialled.
pub record IsComplete (s : Settings) : Type 0 where
  pub redis_addr : index s.redis_addr b':' ≢ none
  pub mongo_addr : s.mongo_addr ≢ []
  pub mongo_db_name : s.mongo_db_name ≢ []

-- An address with a port appended has a colon.
index-port : (a : Text) → index (a ++ codes ":6379") b':' ≢ none
unfolding index
index-port [] e = ground arith
index-port (x ∷ a) e = ground (arith, index-port a)

with_port-index : (a : Text) → index (with_port a) b':' ≢ none
unfolding with_port
with_port-index a e = elim (Option-cases (index a b':')) [
  | inl bare ↦ index-port a (ground arith)
  | inr (i, found) ↦ absurd (ground arith)
]

with_port-kept : (a : Text) → (index a b':' ≡ none) ⊎ (with_port a ≡ a)
unfolding with_port
with_port-kept a = elim (Option-cases (index a b':')) [
  | inl bare ↦ inl bare
  | inr (i, found) ↦ inr (ground arith)
]

or_default-given : (v d : Text) → d ≢ [] → or_default v d ≢ []
unfolding or_default
or_default-given v d h = ground arith

or_default-kept : (v d : Text) → (v ≡ []) ⊎ (or_default v d ≡ v)
unfolding or_default
or_default-kept v d = ground arith

login_required_iff :
    (user pass : Text) → (login_required user pass false ≡ true) ↔ ((user ≢ []) ⊎ (pass ≢ []))
unfolding login_required
login_required_iff user pass = (
  λ h. elim (text_eq.dec user []) [ yes no_user ↦ inr (λ no_pass. ground arith) | no n ↦ inl n ],
  λ h. ground arith,
)

-- After init, the address of Redis has a colon, MongoDB has an address and a database; what the
-- environment gave is kept, the address of Redis if it has a colon; and a login is required exactly
-- if there is a user or a password.
pub init_lem :
    (getenv : Text → Text)
    → let given = from_env getenv in
      let s = init given in
      IsComplete s
      × ((given.mongo_addr ≡ []) ⊎ (s.mongo_addr ≡ given.mongo_addr))
      × ((given.mongo_db_name ≡ []) ⊎ (s.mongo_db_name ≡ given.mongo_db_name))
      × ((index given.redis_addr b':' ≡ none) ⊎ (s.redis_addr ≡ given.redis_addr))
      × ((s.mongo_login_required ≡ true) ↔ ((given.mongo_user ≢ []) ⊎ (given.mongo_pass ≢ [])))
unfolding init from_env
init_lem getenv =
    let given = from_env getenv in
    (
      record {
        redis_addr = with_port-index given.redis_addr;
        mongo_addr = or_default-given given.mongo_addr (codes "localhost") (ground arith);
        mongo_db_name = or_default-given given.mongo_db_name (codes "synk") (ground arith);
      },
      or_default-kept given.mongo_addr (codes "localhost"),
      or_default-kept given.mongo_db_name (codes "synk"),
      with_port-kept given.redis_addr,
      login_required_iff given.mongo_user given.mongo_pass,
    )
