-- ===== src/Document.antt =====
-- libdaylite/include/daylite/bson.hpp and libdaylite/src/bson.cpp: class bson, which shares a document of
-- libbson. A `std::shared_ptr` is the block that it counts in, if any; a block has the address that it is
-- to pass to bson_destroy, and is gone when it has no owner. What uses a block that is gone, or an
-- object that does not live, is `none`.
pub mod Script
pub mod Sharing
pub mod Ownership
mod Tests
use daylite.Prelude.{
  ℕ, zero, suc, ◌+◌, Bool, Option, none, some, List, [], ◌∷◌, ℕ_discrete, if◌then◌else◌,
}
use daylite.Prelude.Assoc.{lookup, put}

abbrev pub SharedPtr : Type 0
SharedPtr = Option ℕ

pub record Block : Type 0 where
  pub raw : ℕ
  pub owners : ℕ

-- A variable of type bson: one whose object was destroyed, or an object with its `_raw`.
pub data Bson : Type 0 where
  gone : Bson
  live : SharedPtr → Bson

-- What becomes of the document at an address: a caller hands it over, bson_copy makes it, or it is
-- destroyed.
pub data Event : Type 0 where
  handed : ℕ → Event
  copied : ℕ → Event
  destroyed : ℕ → Event

-- The events are listed with the last one first.
pub record Memory : Type 0 where
  pub objects : List (ℕ × Bson)
  pub blocks : List (ℕ × Block)
  pub next : ℕ
  pub events : List Event

abbrev pub happens : Event → Memory → Memory
happens e m = record m { events = e ∷ m.events }

-- A document that bson_copy makes, at the address that it answers.
unfoldable pub bson_copy : ℕ → Memory → ℕ × Memory
bson_copy copy m = (copy, happens (copied copy) m)

-- A `std::shared_ptr` of an address, with bson_destroy to delete it.
unfoldable pub reset : ℕ → Memory → SharedPtr × Memory
unfolding put ℕ_discrete
reset raw m = (
  some m.next,
  record m {
    blocks = put ℕ_discrete m.next (record { raw = raw; owners = 1 }) m.blocks;
    next = m.next + 1;
  },
)

-- One owner more for a block that has the given number.
unfoldable pub add_owner : ℕ → Block → ℕ → Memory → Option Memory
unfolding put ℕ_discrete
add_owner b k zero m = none
add_owner b k (suc n) m =
    some (record m { blocks = put ℕ_discrete b (record k { owners = suc (suc n) }) m.blocks })

-- One owner less; with the last one the document goes.
unfoldable pub drop_owner : ℕ → Block → ℕ → Memory → Option Memory
unfolding put ℕ_discrete
drop_owner b k zero m = none
drop_owner b k (suc zero) m = some (record m {
  blocks = put ℕ_discrete b (record k { owners = 0 }) m.blocks;
  events = destroyed k.raw ∷ m.events;
})
drop_owner b k (suc (suc n)) m =
    some (record m { blocks = put ℕ_discrete b (record k { owners = suc n }) m.blocks })

unfoldable pub share : SharedPtr → Memory → Option Memory
unfolding lookup ℕ_discrete add_owner
share none m = some m
share (some b) m = elim (lookup ℕ_discrete b m.blocks) [
  | none ↦ none
  | some k ↦ add_owner b k k.owners m
]

unfoldable pub release : SharedPtr → Memory → Option Memory
unfolding lookup ℕ_discrete drop_owner
release none m = some m
release (some b) m = elim (lookup ℕ_discrete b m.blocks) [
  | none ↦ none
  | some k ↦ drop_owner b k k.owners m
]

unfoldable pub store : ℕ → Bson → Memory → Memory
unfolding put ℕ_discrete
store name w m = record m { objects = put ℕ_discrete name w m.objects }

-- bson(raw, owns), with what bson_copy answers where it is called. That a caller hands a document over
-- is the caller's doing, and stands with the calls of a program.
unfoldable pub of_raw : ℕ → ℕ → Bool → ℕ → Memory → Memory
unfolding bson_copy reset store
of_raw name raw owns copy m =
    let (address, m1) = if owns then (raw, m) else bson_copy copy m in
    let (p, m2) = reset address m1 in store name (live p) m2

-- bson(raw) of a const pointer.
unfoldable pub of_const : ℕ → ℕ → Memory → Memory
unfolding bson_copy reset store
of_const name copy m =
    let (address, m1) = bson_copy copy m in let (p, m2) = reset address m1 in store name (live p) m2

-- bson()
unfoldable pub of_nothing : ℕ → Memory → Memory
unfolding store
of_nothing name m = store name (live none) m

-- The `_raw` of an object.
unfoldable pub raw_of : ℕ → Memory → Option SharedPtr
unfolding lookup ℕ_discrete
raw_of name m = elim (lookup ℕ_discrete name m.objects) [
  | none ↦ none
  | some w ↦ elim w [ gone ↦ none | live p ↦ some p ]
]

-- bson(rhs)
unfoldable pub of_bson : ℕ → ℕ → Memory → Option Memory
unfolding raw_of share store
of_bson name rhs m = elim (raw_of rhs m) [
  | none ↦ none
  | some p ↦ elim (share p m) [ none ↦ none | some m' ↦ some (store name (live p) m') ]
]

-- operator =, which shares the right side's document before it lets go of the left side's.
unfoldable pub assign : ℕ → ℕ → Memory → Option Memory
unfolding raw_of share store release
assign name rhs m = elim (raw_of name m) [
  | none ↦ none
  | some q ↦ elim (raw_of rhs m) [
    | none ↦ none
    | some p ↦ elim (share p m) [ none ↦ none | some m' ↦ release q (store name (live p) m') ]
  ]
]

-- ~bson()
unfoldable pub destroy : ℕ → Memory → Option Memory
unfolding raw_of store release
destroy name m = elim (raw_of name m) [ none ↦ none | some q ↦ release q (store name gone m) ]
