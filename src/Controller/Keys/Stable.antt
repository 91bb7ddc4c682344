-- ===== src/Controller/Keys/Stable.antt =====
-- What the key files hold between two calls.
use that_goes_there.Prelude.{
  String, ◌≡◌, ◌⊎◌, inl, inr, refl, sym, ap, ◌∙◌, true, Option, none, some, List, [], ◌∷◌,
}
use that_goes_there.Outcome.{Report, err, external}
use that_goes_there.Exec.{lift, ◌>>=◌}
use that_goes_there.Controller.Keys.{
  File, read_file, create_file, KeyCodec, load_keypair, create_keypair,
  get_or_create_executor_keypair,
}

some-injective : {A : Type 0} {a b : A} → some a ≡ some b → a ≡ b
some-injective h = cc

module _ (F : File) where
  open F use {World, contents, create, write_all}

  read-cases :
      (w : World) (a : String) → contents w ≡ some a → (F.read w ≡ some a) ⊎ (F.read w ≡ none)
  read-cases w a there = by_result (F.read w) refl
    where
      by_result : (o : Option String) → F.read w ≡ o → (F.read w ≡ some a) ⊎ (F.read w ≡ none)
      by_result none e = inr e
      by_result (some s) e = inl (e ∙ sym (F.contents-read w s e) ∙ there)

module _ (F : File) (N : KeyCodec) where
  open F use {World, contents}
  open N use {KeyPair}

  -- A key that cannot be saved for want of a passphrase leaves an empty file.
  empty_left :
      (w : World) (k : KeyPair)
      → contents w ≡ none
      → (F.create w).0 ≡ true
      → ((get_or_create_executor_keypair F N none (some k) w).0
          ≡ err (external "std::env::VarError"))
        × (contents (get_or_create_executor_keypair F N none (some k) w).1 ≡ some "")
  unfolding get_or_create_executor_keypair create_keypair create_file lift ◌>>=◌
  empty_left w k missing made =
      rw (F.exists-none w missing) (rw made (refl, F.contents-create w made))

  -- A file that is there is left as it is.
  left_as_it_is :
      (variable : Option String) (g : Option KeyPair) (v : World) (s : String)
      → contents v ≡ some s
      → (get_or_create_executor_keypair F N variable g v).1 ≡ v
  unfolding get_or_create_executor_keypair load_keypair read_file lift ◌>>=◌
  left_as_it_is none g v s there = elim (read-cases F v s there) [
    | inl e ↦ rw (F.exists-some v s there) (rw e refl)
    | inr e ↦ rw (F.exists-some v s there) (rw e refl)
  ]
  left_as_it_is (some p) g v s there = elim (read-cases F v s there) [
    | inl e ↦ rw (F.exists-some v s there) (rw e refl)
    | inr e ↦ rw (F.exists-some v s there) (rw e refl)
  ]

  undecodable :
      (v : World) (variable : Option String) (s : String) (g : Option KeyPair)
      → contents v ≡ some s
      → ((p : String) → N.decode s p ≡ none)
      → (r : Report) × ((get_or_create_executor_keypair F N variable g v).0 ≡ err r)
  unfolding get_or_create_executor_keypair load_keypair read_file lift ◌>>=◌
  undecodable v none s g there bad = elim (read-cases F v s there) [
    | inl e ↦ rw (F.exists-some v s there) (external "std::env::VarError", rw e refl)
    | inr e ↦ rw (F.exists-some v s there) (external "std::io::Error", rw e refl)
  ]
  undecodable v (some p) s g there bad = elim (read-cases F v s there) [
    | inl e ↦ rw (F.exists-some v s there) (external "thrussh_keys::Error", rw e (rw (bad p) refl))
    | inr e ↦ rw (F.exists-some v s there) (external "std::io::Error", rw e refl)
  ]

  -- What a call is given: the variable of the environment, and the key that it would generate.
  abbrev Call : Type 0
  Call = Option String × Option KeyPair

  -- The file behind calls, one after the other.
  abbrev pub after_calls : List Call → World → World
  after_calls [] w = w
  after_calls ((variable, generated) ∷ calls) w =
      after_calls calls (get_or_create_executor_keypair F N variable generated w).1

  still_empty :
      (calls : List Call) (v : World)
      → contents v ≡ some ""
      → contents (after_calls calls v) ≡ some ""
  still_empty [] v there = there
  still_empty ((variable, g) ∷ calls) v there =
      still_empty calls _ (ap contents (left_as_it_is variable g v "" there) ∙ there)

  -- If the first call has no passphrase and can create the file, and the empty text is no key under
  -- any passphrase, then the first call fails; and behind any number of further calls, each with or
  -- without a passphrase, every call fails, and the file is there and empty.
  pub executor_keypair_locked_out :
      (w : World) (k : KeyPair) (calls : List Call) (variable : Option String) (g : Option KeyPair)
      → contents w ≡ none
      → (F.create w).0 ≡ true
      → ((p : String) → N.decode "" p ≡ none)
      → ((get_or_create_executor_keypair F N none (some k) w).0
          ≡ err (external "std::env::VarError"))
        × ((r : Report) × ((get_or_create_executor_keypair F N variable g
                (after_calls calls (get_or_create_executor_keypair F N none (some k) w).1)).0
              ≡ err r))
        × (contents (after_calls calls (get_or_create_executor_keypair F N none (some k) w).1)
            ≡ some "")
  executor_keypair_locked_out w k calls variable g missing made bad =
      let (failed, left) = empty_left w k missing made in
      let empty = still_empty calls _ left in (failed, undecodable _ variable "" g empty bad, empty)

  -- The file holds the key under the passphrase.
  abbrev Holds : String → KeyPair → World → Type 0
  Holds p k w = (pem : String) × (contents w ≡ some pem) × (N.decode pem p ≡ some k)
