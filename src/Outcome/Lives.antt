-- ===== src/Outcome/Lives.antt =====
-- What an assignment of an option does to the objects that options hold.
use daylite.Prelude.{
  ◌∙◌, ap, sym, ℕ, ◌+◌, ◌<◌, ◌≡◌, ◌≢◌, refl, true, none, some, List, ℕ_discrete, arith,
}
use daylite.Prelude.Assoc.{lookup, put, remove, lookup-put, lookup-remove, lookup-put_self}
use daylite.Outcome.Slot.{
  Heap, Slot, of_value, unwrap, destroy, destroy_object, construct, assign_from, assign,
}

-- An option that holds a value has the bytes of a live object.
pub record Holds {T : Type 0} (s : Slot) (h : Heap T) (d : T) : Type 0 where
  pub object : ℕ
  pub is_some_of : s.is_some ≡ true
  pub bytes_of : s.bytes ≡ some object
  pub live : lookup ℕ_discrete object h.objects ≡ some d
  pub older : object < h.next

module _ {T : Type 0} where
  -- `s = some(d)` for an `s` of the type of the right side, as tcp_socket writes it: the temporary that
  -- some(d) makes is copied by its bytes and destroyed, and after that `s` holds no object: to read its
  -- value, and to destroy it, uses one that is gone.
  pub assign_temporary :
      (s : Slot) (d : T) (h : Heap T)
      → let (temporary, made) = of_value d h in
        (after : Heap T) × (destroy temporary made ≡ some after)
        × (unwrap (assign s temporary) after ≡ none)
        × (destroy (assign s temporary) after ≡ none)
  unfolding of_value destroy destroy_object unwrap assign
  assign_temporary s d h = (
    record {
      objects = remove ℕ_discrete h.next (put ℕ_discrete h.next d h.objects);
      next = h.next + 1;
    },
    ground (arith, lookup-put_self ℕ_discrete h.next d h.objects),
    ground (arith, lookup-remove ℕ_discrete h.next h.next (put ℕ_discrete h.next d h.objects)),
    ground (arith, lookup-remove ℕ_discrete h.next h.next (put ℕ_discrete h.next d h.objects)),
  )

  -- An assignment from an option of another type, by the template: where both hold an object, each its
  -- own, the old object of the left side is destroyed, and the left side then holds a new one with the
  -- value of the right side's, which stays where it is.
  pub assign_from-Holds :
      (s rhs : Slot) (h : Heap T) (d e : T)
      → Holds s h d
      → Holds rhs h e
      → s.bytes ≢ rhs.bytes
      → (s' : Slot) × (after : Heap T) × (assign_from s rhs h ≡ some (s', after))
        × Holds s' after e
        × Holds rhs after e
        × (unwrap s after ≡ none)
  unfolding assign_from destroy destroy_object construct unwrap of_value
  assign_from-Holds s rhs h d e v w ne = (
    record { is_some = true; bytes = some h.next },
    after,
    ground (arith, kept, v.is_some_of, v.bytes_of, v.live, w.is_some_of, w.bytes_of),
    record {
      object = h.next;
      is_some_of = refl;
      bytes_of = refl;
      live = lookup-put_self ℕ_discrete h.next e left;
      older = omega arith;
    },
    record {
      object = w.object;
      is_some_of = w.is_some_of;
      bytes_of = w.bytes_of;
      live = ground (arith, kept, lookup-put ℕ_discrete h.next w.object e left, w.older);
      older = omega (arith, w.older);
    },
    ground (
      arith,
      v.bytes_of,
      lookup-remove ℕ_discrete v.object v.object h.objects,
      lookup-put ℕ_discrete h.next v.object e left,
      v.older,
    ),
  )
    where
      left : List (ℕ × T)
      left = remove ℕ_discrete v.object h.objects

      after : Heap T
      after = record { objects = put ℕ_discrete h.next e left; next = h.next + 1 }

      apart : v.object ≢ w.object
      apart same = ne (v.bytes_of ∙ ap some same ∙ sym w.bytes_of)

      kept : lookup ℕ_discrete w.object left ≡ some e
      kept = ground (arith, apart, lookup-remove ℕ_discrete v.object w.object h.objects, w.live)
