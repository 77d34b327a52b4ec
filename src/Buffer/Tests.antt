-- ===== src/Buffer/Tests.antt =====
-- Runs of `dynamic_circular_buffer`, and its theorems at concrete inputs.
use daylite.Prelude.{ℕ, ◌≡◌, refl, some, List, [], ◌∷◌, arith}
use daylite.Buffer.{Buffer, discard, clear, read, write}
use daylite.Buffer.Window.{window}
use daylite.Buffer.Slices.{slice}
use daylite.Buffer.Bounds.{IsValid, contents}
use daylite.Buffer.Script.{Op, put, get, skip, wipe, run, queue_run, run_refines, perform}

abbrev junk : ℕ → ℕ
junk n = 204

-- 8 and 9, round the end of the array
abbrev wrapped : Buffer
wrapped = record { head = 2; virtual_size = 2; physical_size = 3; backing = 9 ∷ 7 ∷ 8 ∷ [] }

abbrev script : List Op
script = put (1 ∷ 2 ∷ []) ∷ get 3 ∷ skip 1 ∷ put (5 ∷ []) ∷ wipe ∷ get 1 ∷ []

contents-wrapped : contents wrapped ≡ 8 ∷ 9 ∷ []
unfolding window slice
contents-wrapped = refl

wrapped-IsValid : IsValid wrapped
wrapped-IsValid = omega arith

write-wrapped :
    write junk wrapped (4 ∷ [])
    ≡ some (record { head = 2; virtual_size = 3; physical_size = 3; backing = 9 ∷ 4 ∷ 8 ∷ [] })
unfolding write
write-wrapped = refl

run-wrapped :
    run junk wrapped script
    ≡ some (([], 0) ∷ (8 ∷ 9 ∷ 1 ∷ [], 3) ∷ ([], 1) ∷ ([], 0) ∷ ([], 0) ∷ ([], 0) ∷ [])
unfolding run perform write read discard clear
run-wrapped = refl

run_refines_example : run junk wrapped script ≡ some (queue_run (contents wrapped) script)
run_refines_example =
    run_refines junk wrapped script wrapped-IsValid (unfold window slice in omega arith)
