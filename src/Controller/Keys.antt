-- ===== src/Controller/Keys.antt =====
-- there-controller/src/keys.rs: the agent token and the executor's key, each kept in a file.
pub mod Stable
use that_goes_there.Prelude.{String, ◌≡◌, Bool, true, false, Option, none, some}
use that_goes_there.Outcome.{Outcome, ok, err, panic, unwrap_on_none, external}
use that_goes_there.Exec.{Exec, pure, lift, ◌>>=◌}

-- A file at a path: `contents` is its text, if it is there. Reading may fail. `tokio::fs` may still be
-- writing when `write_all` returns, and the code does not flush: nothing is said of the text then.
pub record File : Type 1 where
  pub World : Type 0
  pub contents : World → Option String
  pub exists : World → Bool
  pub read : World → Option String
  pub create : World → Bool × World
  pub write_all : String → World → Bool × World
  pub exists-none : (w : World) → contents w ≡ none → exists w ≡ false
  pub exists-some : (w : World) (s : String) → contents w ≡ some s → exists w ≡ true
  pub contents-read : (w : World) (s : String) → read w ≡ some s → contents w ≡ some s
  pub contents-create : (w : World) → (create w).0 ≡ true → contents (create w).1 ≡ some ""

abbrev pub io_or_err {ℓ} : {A : Type ℓ} → Option A → Outcome A
io_or_err none = err (external "std::io::Error")
io_or_err (some a) = ok a

abbrev pub done_or_err : Bool → Outcome (Unit {0})
done_or_err false = err (external "std::io::Error")
done_or_err true = ok tt

module _ (F : File) where
  open F use {World}

  unfoldable pub read_file : Exec World String
  read_file w = (io_or_err (F.read w), w)

  unfoldable pub create_file : Exec World Unit
  create_file w = let (r, v) = F.create w in (done_or_err r, v)

  unfoldable pub write_file : String → Exec World Unit
  write_file s w = let (r, v) = F.write_all s w in (done_or_err r, v)

  -- A new token; `token` is what `generate_token` gives.
  unfoldable pub create_token : String → Exec World String
  create_token token = do created ← create_file; written ← write_file token; pure token

  abbrev pub by_existence {ℓ} : {A : Type ℓ} → Bool → A → A → A
  by_existence true there missing = there
  by_existence false there missing = missing

  unfoldable pub get_or_create_token : String → Exec World String
  get_or_create_token token w = by_existence (F.exists w) read_file (create_token token) w

-- The key functions of `thrussh_keys`: what was encoded under a passphrase is decoded under it.
pub record KeyCodec : Type 1 where
  pub KeyPair : Type 0
  pub encode : KeyPair → String → Option String
  pub decode : String → String → Option KeyPair
  pub decode-encode : (k : KeyPair) (p pem : String) → encode k p ≡ some pem → decode pem p ≡ some k

-- `passphrase()`, of the variable of the environment
abbrev pub passphrase : Option String → Outcome String
passphrase none = err (external "std::env::VarError")
passphrase (some p) = ok p

abbrev pub key_or_err {ℓ} : {A : Type ℓ} → Option A → Outcome A
key_or_err none = err (external "thrussh_keys::Error")
key_or_err (some a) = ok a

abbrev pub unwrap_key {ℓ} : {A : Type ℓ} → Option A → Outcome A
unwrap_key none = panic unwrap_on_none
unwrap_key (some a) = ok a

module _ (F : File) (N : KeyCodec) where
  open F use {World}
  open N use {KeyPair}

  unfoldable pub load_keypair : Option String → Exec World KeyPair
  load_keypair variable = do
    key ← read_file F
    p ← lift (passphrase variable)
    lift (key_or_err (N.decode key p))

  -- The file is created before the passphrase is asked for.
  unfoldable pub create_keypair : Option String → Option KeyPair → Exec World KeyPair
  create_keypair variable generated = do
    created ← create_file F
    key ← lift (unwrap_key generated)
    p ← lift (passphrase variable)
    pem ← lift (key_or_err (N.encode key p))
    written ← write_file F pem
    pure key

  -- `generated` is what `KeyPair::generate_ed25519` gives.
  unfoldable pub get_or_create_executor_keypair :
      Option String → Option KeyPair → Exec World KeyPair
  get_or_create_executor_keypair variable generated w =
      by_existence F (F.exists w) (load_keypair variable) (create_keypair variable generated) w
