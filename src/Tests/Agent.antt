-- ===== src/Tests/Agent.antt =====
-- The theorem on the agent at a small file.
use that_goes_there.Prelude.{String, ◌<>◌, ◌≡◌, inr, refl, true, some, [], ◌∷◌, contains}
use that_goes_there.Text.{split_on}
use that_goes_there.Text.Lines.{strip_return, lines}
use that_goes_there.Outcome.{ok}
use that_goes_there.Exec.{pure, lift, ◌>>=◌}
use that_goes_there.Agent.{KeyFile, append_key, add_if_missing, poll, run}
use that_goes_there.Agent.Settled.{IsLine, run_settled}
use that_goes_there.Tests.Samples.{some-text}

abbrev key_file : KeyFile
key_file = record {
  World = String;
  contents = λ w. w;
  read = λ w. some w;
  open_append = λ w. true;
  write = λ t w. (true, w <> t);
  contents-read = λ w s h. some-text h;
  contents-write = λ w t h. refl;
}

new_key-IsLine : IsLine "new"
unfolding split_on strip_return
new_key-IsLine = record { whole = refl; kept = refl }

polled_once : (poll key_file (some "new") "old\n").0 ≡ ok tt
unfolding poll lift append_key add_if_missing lines pure ◌>>=◌
polled_once = refl

run_settled_example :
    (contains (lines (poll key_file (some "new") "old\n").1) "new" ≡ true)
    × ((run key_file (some "new" ∷ some "new" ∷ []) (poll key_file (some "new") "old\n").1).1
        ≡ (poll key_file (some "new") "old\n").1)
run_settled_example =
    run_settled key_file "new" (some "new" ∷ some "new" ∷ []) "old\n" (inr ("old", refl))
      new_key-IsLine polled_once (refl, (refl, tt))
