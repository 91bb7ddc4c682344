-- ===== src/Tests/Keys.antt =====
-- The theorems on key files at small files.
use that_goes_there.Prelude.{
  String, ◌<>◌, ◌≡◌, refl, sym, ap, Bool, true, false, Option, none, some, str_eq, List, [], ◌∷◌,
  if◌then◌else◌,
}
use that_goes_there.Outcome.{Report, err, external}
use that_goes_there.Controller.Keys.{File, KeyCodec, get_or_create_executor_keypair}
use that_goes_there.Controller.Keys.Stable.{after_calls, executor_keypair_locked_out}

abbrev pub is_there : Option String → Bool
is_there none = false
is_there (some s) = true

abbrev pub text_of : Option String → String
text_of none = ""
text_of (some s) = s

abbrev file : File
file = record {
  World = Option String;
  contents = λ w. w;
  exists = is_there;
  read = λ w. w;
  create = λ w. (true, some "");
  write_all = λ t w. (true, some (text_of w <> t));
  exists-none = λ w h. ap is_there h;
  exists-some = λ w s h. ap is_there h;
  contents-read = λ w s h. h;
  contents-create = λ w h. refl;
}

abbrev pub one_key : String → Option (Unit {0})
one_key s = if str_eq s "key" then some tt else none

pub one_key-encoded : (pem : String) → some "key" ≡ some pem → one_key pem ≡ some tt
one_key-encoded pem h = ap (λ o. one_key (text_of o)) (sym h)

abbrev codec : KeyCodec
codec = record {
  KeyPair = Unit {0};
  encode = λ k p. some "key";
  decode = λ s p. one_key s;
  decode-encode = λ k p pem h. one_key-encoded pem h;
}

-- Behind the first call, two calls: one with a passphrase, and one without.
abbrev retries : List (Option String × Option (Unit {0}))
retries = (some "pass", none) ∷ (none, some tt) ∷ []

locked_out_example :
    ((get_or_create_executor_keypair file codec none (some tt) none).0
      ≡ err (external "std::env::VarError"))
    × ((r : Report) × ((get_or_create_executor_keypair file codec (some "pass") (some tt) (
            after_calls file codec retries
              (get_or_create_executor_keypair file codec none (some tt) none).1)).0
          ≡ err r))
    × (after_calls file codec retries
          (get_or_create_executor_keypair file codec none (some tt) none).1
        ≡ some "")
locked_out_example =
    executor_keypair_locked_out file codec none tt retries (some "pass") (some tt) refl refl
      (λ p. refl)
