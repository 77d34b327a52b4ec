-- ===== src/Document/Tests.antt =====
-- Objects that are made, copied, assigned and destroyed.
use daylite.Prelude.{◌≡◌, refl, true, none, some, List, [], ◌∷◌, ℕ_discrete}
use daylite.Prelude.Assoc.{lookup, put, total}
use daylite.Document.{
  handed, copied, destroyed, Memory, bson_copy, reset, add_owner, drop_owner, share, release, store,
  of_raw, of_const, raw_of, of_bson, assign, destroy,
}
use daylite.Document.Script.{
  Call, makes, makes_const, copies, assigns, dies, hand, is_live, is_proper, call, run_calls,
}
use daylite.Document.Sharing.{given, ended, IsShared}
use daylite.Document.Ownership.{run_calls-IsShared}

abbrev nothing : Memory
nothing = record { objects = []; blocks = []; next = 0; events = [] }

-- The last but one call lets go of the copy, and the last of the document that was handed over.
abbrev script : List Call
script =
    makes 1 100 true 0
    ∷ copies 2 1
    ∷ assigns 2 2
    ∷ makes_const 3 200
    ∷ assigns 3 1
    ∷ dies 1
    ∷ dies 2
    ∷ dies 3
    ∷ []

ends_all :
    elim (run_calls script nothing) [ none ↦ none | some m ↦ some m.events ]
    ≡ some (destroyed 100 ∷ destroyed 200 ∷ copied 200 ∷ handed 100 ∷ [])
unfolding run_calls call hand is_proper is_live of_raw of_const bson_copy of_bson assign destroy
    raw_of store release share drop_owner add_owner reset lookup put ℕ_discrete
ends_all = refl

nothing-IsShared : IsShared none nothing
unfolding lookup given ended total
nothing-IsShared = record { counted = λ b. refl; fresh = λ b le. refl; balanced = λ raw. refl }

run_calls-IsShared_example : (m' : Memory) × (run_calls script nothing ≡ some m') × IsShared none m'
run_calls-IsShared_example = run_calls-IsShared script nothing nothing-IsShared
