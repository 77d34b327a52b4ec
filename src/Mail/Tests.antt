-- ===== src/Mail/Tests.antt =====
-- The mailman at concrete inputs.
use mathlib.Core.Path.{subst}
use daylite.Prelude.{◌+◌, ◌^◌, ◌≡◌, refl, [], ◌∷◌, String-discrete, ℕ_discrete, arith, count}
use daylite.Prelude.Assoc.{lookup, put}
use daylite.Mail.{Mailman, boxes, enter, recipients, others}
use daylite.Mail.Recipients.{IsKeyed, holds, clear-IsKeyed, enter-IsKeyed}
use daylite.Mail.Collision.{collision_loses_first}

-- A mailbox of a topic and one of any topic.
abbrev table : Mailman
table = ("sonar", (16, 16) ∷ []) ∷ ("*", (32, 32) ∷ []) ∷ []

table-entered : enter (enter [] "sonar" 16) "*" 32 ≡ table
unfolding enter put lookup boxes String-discrete ℕ_discrete
table-entered = refl

table-IsKeyed : IsKeyed table
table-IsKeyed =
    subst IsKeyed table-entered
      (enter-IsKeyed (enter [] "sonar" 16) "*" 32 (enter-IsKeyed [] "sonar" 16 (clear-IsKeyed [])))

recipients-table : recipients table 8 "sonar" ≡ 16 ∷ 32 ∷ []
unfolding recipients others boxes lookup String-discrete
recipients-table = refl

collision_loses_first_example :
    count ℕ_discrete 64
      (recipients (enter (enter table "motor" 64) "motor" (2 ^ 32 + 64)) 8 "motor")
    ≡ 0
collision_loses_first_example =
    collision_loses_first table "motor" 64 (2 ^ 32 + 64) 8 table-IsKeyed (λ e. omega arith) refl
      (λ e. cc) (unfold holds boxes lookup String-discrete ℕ_discrete in refl)
