-- ===== src/Mail/Table.antt =====
-- The table of mailman.cpp: what registering and unregistering a mailbox does to it.
use daylite.Prelude.{
  ℕ, ◌≡◌, refl, none, some, List, [], ◌∷◌, String, String-discrete, ℕ_discrete, ite, arith,
}
use daylite.Prelude.Assoc.{
  lookup, put, remove, lookup-put, lookup-remove, remove_absent, remove-put,
}
use daylite.Mail.{Mailman, id32, boxes, enter, keep_boxes, leave, clear}

-- Registering changes the entries of its topic only.
pub boxes-enter :
    (m : Mailman) (t u : String) (a : ℕ)
    → boxes (enter m t a) u
      ≡ ite (String-discrete t u) (put ℕ_discrete (id32 a) a (boxes m t)) (boxes m u)
unfolding boxes enter
boxes-enter m t u a =
    ground (arith, lookup-put String-discrete t u (put ℕ_discrete (id32 a) a (boxes m t)) m)

boxes-keep_boxes :
    (m : Mailman) (t u : String) (bs : List (ℕ × ℕ))
    → boxes (keep_boxes m t bs) u ≡ ite (String-discrete t u) bs (boxes m u)
unfolding boxes keep_boxes
boxes-keep_boxes m t u [] = ground (arith, lookup-remove String-discrete t u m)
boxes-keep_boxes m t u (b ∷ bs) = ground (arith, lookup-put String-discrete t u (b ∷ bs) m)

-- Unregistering what is found erases the entry of its id under its topic, and nothing else.
pub leave_lem :
    (m : Mailman) (t : String) (a found : ℕ)
    → lookup ℕ_discrete (id32 a) (boxes m t) ≡ some found
    → (m' : Mailman) × (leave m t a ≡ some (found, m'))
      × ((u : String)
          → boxes m' u
            ≡ ite (String-discrete t u) (remove ℕ_discrete (id32 a) (boxes m t)) (boxes m u))
unfolding leave
leave_lem m t a found h = (
  keep_boxes m t (remove ℕ_discrete (id32 a) (boxes m t)),
  rw (h, leave),
  λ u. boxes-keep_boxes m t u (remove ℕ_discrete (id32 a) (boxes m t)),
)

-- A mailbox that is registered and unregistered again, where its id was free, leaves every topic's
-- entries as they were.
pub leave-enter :
    (m : Mailman) (t : String) (a : ℕ)
    → lookup ℕ_discrete (id32 a) (boxes m t) ≡ none
    → (m' : Mailman) × (leave (enter m t a) t a ≡ some (a, m'))
      × ((u : String) → boxes m' u ≡ boxes m u)
leave-enter m t a h = (gone.0, gone.1, same)
  where
    there : lookup ℕ_discrete (id32 a) (boxes (enter m t a) t) ≡ some a
    there =
        ground (arith, boxes-enter m t t a, lookup-put ℕ_discrete (id32 a) (id32 a) a (boxes m t))

    gone :
        (m' : Mailman) × (leave (enter m t a) t a ≡ some (a, m'))
        × ((u : String)
            → boxes m' u
              ≡ ite
                  (String-discrete t u)
                  (remove ℕ_discrete (id32 a) (boxes (enter m t a) t))
                  (boxes (enter m t a) u))
    gone = leave_lem (enter m t a) t a a there

    same : (u : String) → boxes gone.0 u ≡ boxes m u
    same u = ground (
      arith,
      gone.2 u,
      boxes-enter m t t a,
      boxes-enter m t u a,
      remove-put ℕ_discrete (id32 a) a (boxes m t),
      remove_absent ℕ_discrete (id32 a) (boxes m t),
    )

-- After `clear` no mailbox can be unregistered: the null pointer under its id is followed.
pub leave-clear : (m : Mailman) (t : String) (a : ℕ) → leave (clear m) t a ≡ none
unfolding leave boxes lookup
leave-clear m t a = refl

pub leave_absent :
    (m : Mailman) (t : String) (a : ℕ)
    → lookup ℕ_discrete (id32 a) (boxes m t) ≡ none
    → leave m t a ≡ none
unfolding leave
leave_absent m t a h = rw (h, leave)
