-- ===== src/Outcome/Slot.antt =====
-- libdaylite/include/daylite/option.hpp with the lives of the objects that it holds. The storage of an
-- option has the bytes of an object, and an object is named by what its constructor made; one that was
-- destroyed, or never made, is not among the live ones, and to use it is `none`.
use daylite.Prelude.{ℕ, ◌+◌, Bool, true, false, Option, none, some, List, ℕ_discrete, if◌then◌else◌}
use daylite.Prelude.Assoc.{lookup, put, remove}

pub record Heap {ℓ} (T : Type ℓ) : Type ℓ where
  pub objects : List (ℕ × T)
  pub next : ℕ

-- `_some` and `_t`.
pub record Slot : Type 0 where
  pub is_some : Bool
  pub bytes : Option ℕ

-- The default constructor.
abbrev pub empty : Slot
empty = record { is_some = false; bytes = none }

-- A template is no copy assignment operator, so for an option of the same type the compiler makes
-- one: it copies the members, the bytes of the storage among them.
unfoldable pub assign : Slot → Slot → Slot
assign s rhs = record { is_some = rhs.is_some; bytes = rhs.bytes }

module _ {T : Type 0} where
  -- The constructor from a value.
  unfoldable pub of_value : T → Heap T → Slot × Heap T
  unfolding put ℕ_discrete
  of_value d h = (
    record { is_some = true; bytes = some h.next },
    record { objects = put ℕ_discrete h.next d h.objects; next = h.next + 1 },
  )

  -- option::unwrap, which does not test `_some`.
  unfoldable pub unwrap : Slot → Heap T → Option T
  unfolding lookup ℕ_discrete
  unwrap s h = elim s.bytes [ none ↦ none | some r ↦ lookup ℕ_discrete r h.objects ]

  unfoldable pub or_else : Slot → T → Heap T → Option T
  unfolding unwrap
  or_else s rhs h = if s.is_some then unwrap s h else some rhs

  -- The destructor of the object in the storage.
  unfoldable pub destroy_object : Slot → Heap T → Option (Heap T)
  unfolding unwrap remove ℕ_discrete
  destroy_object s h = elim s.bytes [
    | none ↦ none
    | some r ↦ elim (lookup ℕ_discrete r h.objects) [
      | none ↦ none
      | some d ↦ some (record h { objects = remove ℕ_discrete r h.objects })
    ]
  ]

  -- The destructor.
  unfoldable pub destroy : Slot → Heap T → Option (Heap T)
  unfolding destroy_object
  destroy s h = if s.is_some then destroy_object s h else some h

  -- A new object made from the one that `rhs` holds.
  unfoldable pub construct : Slot → Heap T → Option (Slot × Heap T)
  unfolding unwrap of_value
  construct rhs h = elim (unwrap rhs h) [ none ↦ none | some d ↦ some (of_value d h) ]

  -- The two copy constructors.
  unfoldable pub copy : Slot → Heap T → Option (Slot × Heap T)
  unfolding construct
  copy rhs h = if rhs.is_some then construct rhs h else some (empty, h)

  -- The template operator =, for an option of another type.
  unfoldable pub assign_from : Slot → Slot → Heap T → Option (Slot × Heap T)
  unfolding destroy construct
  assign_from s rhs h = elim (destroy s h) [
    | none ↦ none
    | some h' ↦ if rhs.is_some then construct rhs h' else some (record s { is_some = false }, h')
  ]
