-- ===== src/Outcome/Tests.antt =====
-- Runs of option.hpp.
use daylite.Prelude.{ℕ, ◌≡◌, none, some, [], ◌∷◌, true}
use daylite.Outcome.Slot.{Heap, Slot, of_value, unwrap, destroy, assign}
use daylite.Outcome.Lives.{assign_temporary}

abbrev heap : Heap ℕ
heap = record { objects = (0, 70) ∷ (1, 80) ∷ []; next = 2 }

abbrev left : Slot
left = record { is_some = true; bytes = some 0 }

abbrev right : Slot
right = record { is_some = true; bytes = some 1 }

assign_temporary_example :
    let (temporary, made) = of_value 90 heap in
    (after : Heap ℕ) × (destroy temporary made ≡ some after)
    × (unwrap (assign left temporary) after ≡ none)
    × (destroy (assign left temporary) after ≡ none)
assign_temporary_example = assign_temporary left 90 heap
