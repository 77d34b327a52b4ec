-- ===== src/Mail/Collision.antt =====
-- mailman.hpp keeps the id of a mailbox, its address, as a `uint32_t`: two mailboxes of one topic whose
-- addresses agree in their low 32 bits.
use daylite.Prelude.{
  ℕ, ◌≡◌, ◌≢◌, none, some, String, String-discrete, ℕ_discrete, ite, arith, count,
}
use daylite.Prelude.Assoc.{lookup, remove, lookup-put, lookup-remove}
use daylite.Topic.{any}
use daylite.Mail.{Mailman, id32, boxes, enter, leave, recipients}
use daylite.Mail.Table.{boxes-enter, leave_lem}
use daylite.Mail.Recipients.{IsKeyed, holds, enter-IsKeyed, count-recipients, holds-enter}

-- Of two mailboxes of one topic (other than any) whose addresses agree in their low 32 bits, the one
-- registered first gets no packet of that topic any more, unless it was also registered for any
-- topic.
pub collision_loses_first :
    (m : Mailman) (t : String) (a b sender : ℕ)
    → IsKeyed m
    → a ≢ b
    → id32 a ≡ id32 b
    → t ≢ any
    → holds (boxes m any) a ≡ 0
    → count ℕ_discrete a (recipients (enter (enter m t a) t b) sender t) ≡ 0
collision_loses_first m t a b sender h ne same ta free = ground (
  arith,
  count-recipients (enter (enter m t a) t b) sender a t
      (enter-IsKeyed (enter m t a) t b (enter-IsKeyed m t a h)),
  holds-enter (enter m t a) t t b a,
  holds-enter (enter m t a) t any b a,
  holds-enter m t any a a,
)

-- Where two mailboxes of one topic have addresses that agree in their low 32 bits, unregistering the
-- one registered first finds the second one, and takes its entry away.
pub collision_unregisters_second :
    (m : Mailman) (t : String) (a b : ℕ)
    → id32 a ≡ id32 b
    → (m' : Mailman) × (leave (enter (enter m t a) t b) t a ≡ some (b, m'))
      × (lookup ℕ_discrete (id32 b) (boxes m' t) ≡ none)
collision_unregisters_second m t a b same = (
  gone.0,
  gone.1,
  ground (
    arith,
    gone.2 t,
    lookup-remove ℕ_discrete (id32 a) (id32 b) (boxes (enter (enter m t a) t b) t),
  ),
)
  where
    there : lookup ℕ_discrete (id32 a) (boxes (enter (enter m t a) t b) t) ≡ some b
    there = ground (
      arith,
      boxes-enter (enter m t a) t t b,
      lookup-put ℕ_discrete (id32 b) (id32 a) b (boxes (enter m t a) t),
    )

    gone :
        (m' : Mailman) × (leave (enter (enter m t a) t b) t a ≡ some (b, m'))
        × ((u : String)
            → boxes m' u
              ≡ ite
                  (String-discrete t u)
                  (remove ℕ_discrete (id32 a) (boxes (enter (enter m t a) t b) t))
                  (boxes (enter (enter m t a) t b) u))
    gone = leave_lem (enter (enter m t a) t b) t a b there
