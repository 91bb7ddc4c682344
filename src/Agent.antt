-- ===== src/Agent.antt =====
-- there-agent/src/main.rs: the loop that keeps the controller's key in the authorized keys.
pub mod Settled
use that_goes_there.Prelude.{
  String, ◌<>◌, ◌≡◌, Bool, true, false, Option, none, some, List, contains,
}
use that_goes_there.Text.Lines.{lines}
use that_goes_there.Outcome.{Outcome, ok, err, panic, unwrap_on_err, explicit, external}
use that_goes_there.Exec.{Exec, pure, lift, ◌>>=◌, for_each}

-- The file of authorized keys, with the text `contents`. A write that fails leaves any text.
pub record KeyFile : Type 1 where
  pub World : Type 0
  pub contents : World → String
  pub read : World → Option String
  pub open_append : World → Bool
  pub write : String → World → Bool × World
  pub contents-read : (w : World) (s : String) → read w ≡ some s → contents w ≡ s
  pub contents-write :
      (w : World) (t : String) → (write t w).0 ≡ true → contents (write t w).1 ≡ contents w <> t

abbrev pub or_error {ℓ} : {A : Type ℓ} → String → Option A → Outcome A
or_error e none = err (external e)
or_error e (some a) = ok a

abbrev pub opened : Bool → Outcome (Unit {0})
opened false = panic unwrap_on_err
opened true = ok tt

abbrev pub written : Bool → Outcome (Unit {0})
written false = panic explicit
written true = ok tt

module _ (F : KeyFile) where
  open F use {World}

  -- `writeln!(file, "{controller_key}")` behind the opening
  unfoldable pub append_key : String → Exec World Unit
  append_key key w = let (r, v) = F.write (key <> "\n") w in (written r, v)

  unfoldable pub add_if_missing : String → Bool → Exec World Unit
  add_if_missing key true = pure tt
  add_if_missing key false = do file ← λ w. (opened (F.open_append w), w); append_key key

  -- One round of the loop; `response` is the text that the controller answered, if it did.
  unfoldable pub poll : Option String → Exec World Unit
  poll response = do
    controller_key ← lift (or_error "reqwest::Error" response)
    existing ← λ w. (or_error "std::io::Error" (F.read w), w)
    add_if_missing controller_key (contains (lines existing) controller_key)

  -- The loop, over the controller's answers so far; an error or a panic ends it.
  unfoldable pub run : List (Option String) → Exec World Unit
  run = for_each poll
