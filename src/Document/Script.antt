-- ===== src/Document/Script.antt =====
-- A program, as the sequence of its calls on named objects of the class bson.
use daylite.Prelude.{
  ℕ, Bool, true, false, not, ◌&&◌, Option, none, some, List, [], ◌∷◌, if◌then◌else◌,
}
use daylite.Document.{
  Memory, handed, happens, of_raw, of_const, of_nothing, raw_of, of_bson, assign, destroy,
}

-- The calls of a program, on the names of its objects.
pub data Call : Type 0 where
  makes : ℕ → ℕ → Bool → ℕ → Call
  makes_const : ℕ → ℕ → Call
  makes_empty : ℕ → Call
  copies : ℕ → ℕ → Call
  assigns : ℕ → ℕ → Call
  dies : ℕ → Call

unfoldable pub is_live : ℕ → Memory → Bool
unfolding raw_of
is_live name m = elim (raw_of name m) [ none ↦ false | some p ↦ true ]

-- An object is made where none lives, and what is called or read lives.
unfoldable pub is_proper : Call → Memory → Bool
unfolding is_live
is_proper (makes name raw owns copy) m = not (is_live name m)
is_proper (makes_const name copy) m = not (is_live name m)
is_proper (makes_empty name) m = not (is_live name m)
is_proper (copies name rhs) m = not (is_live name m) && is_live rhs m
is_proper (assigns name rhs) m = is_live name m && is_live rhs m
is_proper (dies name) m = is_live name m

-- Who passes `true` gives the document to the object; who passes `false` keeps it.
unfoldable pub hand : ℕ → Bool → Memory → Memory
hand raw owns m = if owns then happens (handed raw) m else m

unfoldable pub call : Call → Memory → Option Memory
unfolding hand of_raw of_const of_nothing of_bson assign destroy
call (makes name raw owns copy) m = some (of_raw name raw owns copy (hand raw owns m))
call (makes_const name copy) m = some (of_const name copy m)
call (makes_empty name) m = some (of_nothing name m)
call (copies name rhs) m = of_bson name rhs m
call (assigns name rhs) m = assign name rhs m
call (dies name) m = destroy name m

-- A call that is not proper is no call of a program, and is left out.
unfoldable pub run_calls : List Call → Memory → Option Memory
unfolding call is_proper
run_calls [] m = some m
run_calls (c ∷ cs) m = elim (if is_proper c m then call c m else some m) [
  | none ↦ none
  | some m' ↦ run_calls cs m'
]
