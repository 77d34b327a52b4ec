-- ===== src/Spinner/Tests.antt =====
-- The spinner at concrete inputs.
use daylite.Prelude.{ℕ, ◌+◌, ◌≡◌, ◌==◌, refl, none, some, [], ◌∷◌, count, ℕ_discrete, if◌then◌else◌}
use daylite.Outcome.{done}
use daylite.Spinner.{
  Spinner, quits, Updated, unregister_spinett, null_out, serve, adopt, drop_null, update_from, tidy,
  spin_once,
}
use daylite.Spinner.Rounds.{live, spin_once-quiet}
use daylite.Spinner.Waiting.{waiting, calls_of, unregister_spinett-calls}

-- Updates that count.
abbrev counted : ℕ → ℕ → Updated ℕ
counted sp n = record { result = done; requests = []; world = n + 1 }

-- The update of 8 destroys 16.
abbrev murder : ℕ → ℕ → Updated ℕ
murder sp n = record {
  result = done;
  requests = if sp == 8 then quits 16 ∷ [] else [];
  world = n + 1;
}

abbrev three : Spinner
three = record { to_add = 24 ∷ []; spinetts = some 8 ∷ none ∷ some 16 ∷ [] }

spin_once-three : spin_once murder three 0 ≡ record {
  result = done;
  calls = 8 ∷ [];
  spinner = record { to_add = []; spinetts = some 8 ∷ none ∷ some 24 ∷ [] };
  world = 1;
}
unfolding spin_once tidy update_from serve unregister_spinett null_out adopt drop_null
spin_once-three = refl

spin_once-quiet_example :
    ((spin_once counted three 0).calls ≡ 8 ∷ 16 ∷ [])
    × (live (spin_once counted three 0).spinner.spinetts ≡ 8 ∷ 16 ∷ 24 ∷ [])
    × ((spin_once counted three 0).spinner.to_add ≡ [])
spin_once-quiet_example = spin_once-quiet counted (λ sp w. (refl, refl)) three 0

-- The spinett 16 of the list is destroyed before the second place is looked at.
unregister_spinett-calls_example :
    let s' = (unregister_spinett 16 three).1 in
    let rest = update_from counted 2 1 s' 0 in
    (count ℕ_discrete 16 rest.calls ≡ 0)
    × (count ℕ_discrete 16
          (calls_of counted 16 (λ x w. tt) 3 (tidy counted rest).spinner (tidy counted rest).world)
        ≡ 0)
    × (count ℕ_discrete 16 (calls_of counted 16 (λ x w. tt) 3 s' 0) ≡ 0)
unregister_spinett-calls_example =
    unregister_spinett-calls counted 16 (λ x w. tt) three 0 1 2 3
      (unfold waiting count ℕ_discrete in refl)
