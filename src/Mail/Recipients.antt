-- ===== src/Mail/Recipients.antt =====
-- Who gets a packet that mailman::send hands out.
use mathlib.Core.Path.{subst}
use daylite.Prelude.{
  ℕ, ◌+◌, ◌≡◌, refl, ap, sym, ◌∙◌, Option, none, some, List, [], ◌∷◌, String, String-discrete,
  ℕ_discrete, ite, arith, Option-cases, inl, inr, count, count-append,
}
use daylite.Prelude.Assoc.{lookup, put, remove, lookup-put, lookup-remove}
use daylite.Topic.{any}
use daylite.Mail.{Mailman, id32, boxes, enter, leave, clear, others, recipients}
use daylite.Mail.Table.{boxes-enter, leave_lem, leave_absent}

-- Each entry stands under its own address's id, and no two under one id.
abbrev pub AreKeyed : List (ℕ × ℕ) → Type 0
AreKeyed [] = Unit {0}
AreKeyed ((k, a) ∷ bs) = (k ≡ id32 a) × (lookup ℕ_discrete k bs ≡ none) × AreKeyed bs

abbrev pub IsKeyed : Mailman → Type 0
IsKeyed m = (t : String) → AreKeyed (boxes m t)

-- 1 if the address is registered under its id, 0 if not.
unfoldable pub holds : List (ℕ × ℕ) → ℕ → ℕ
unfolding lookup ℕ_discrete
holds bs a = elim (lookup ℕ_discrete (id32 a) bs) [ none ↦ 0 | some b ↦ ite (ℕ_discrete b a) 1 0 ]

put-AreKeyed : (a : ℕ) (bs : List (ℕ × ℕ)) → AreKeyed bs → AreKeyed (put ℕ_discrete (id32 a) a bs)
unfolding put lookup
put-AreKeyed a [] h = (refl, refl, tt)
put-AreKeyed a ((k, b) ∷ bs) h =
    ground (arith, put-AreKeyed a bs h.2, lookup-put ℕ_discrete (id32 a) k a bs)

remove-AreKeyed : (k : ℕ) (bs : List (ℕ × ℕ)) → AreKeyed bs → AreKeyed (remove ℕ_discrete k bs)
unfolding remove
remove-AreKeyed k [] h = tt
remove-AreKeyed k ((j, b) ∷ bs) h =
    ground (arith, remove-AreKeyed k bs h.2, lookup-remove ℕ_discrete k j bs)

pub clear-IsKeyed : (m : Mailman) → IsKeyed (clear m)
unfolding boxes lookup
clear-IsKeyed m t = tt

-- Registering and unregistering keep the table keyed.
pub enter-IsKeyed : (m : Mailman) (t : String) (a : ℕ) → IsKeyed m → IsKeyed (enter m t a)
enter-IsKeyed m t a h u =
    rw (boxes-enter m t u a)
      (elim (String-discrete t u)
        as (λ d. AreKeyed (ite d (put ℕ_discrete (id32 a) a (boxes m t)) (boxes m u))) [
          | yes e ↦ put-AreKeyed a (boxes m t) (h t)
          | no e ↦ h u
        ])

pub count-others :
    (s a : ℕ) (bs : List (ℕ × ℕ))
    → AreKeyed bs
    → count ℕ_discrete a (others s bs) ≡ (ite (ℕ_discrete s (id32 a)) 0 (holds bs a))
unfolding others holds lookup count
count-others s a [] h = ground arith
count-others s a ((k, b) ∷ bs) h = ground (arith, count-others s a bs h.2)

pub leave-IsKeyed :
    (m m' : Mailman) (t : String) (a found : ℕ)
    → IsKeyed m
    → leave m t a ≡ some (found, m')
    → IsKeyed m'
leave-IsKeyed m m' t a found h e = elim (Option-cases (lookup ℕ_discrete (id32 a) (boxes m t))) [
  | inl absent ↦ absurd (none_is_not_some (sym (leave_absent m t a absent) ∙ e))
  | inr (b, there) ↦
      let (k, l, same) = leave_lem m t a b there in
      λ u.
        subst (λ (n : Mailman). AreKeyed (boxes n u))
          (ap (λ (o : Option (ℕ × Mailman)). elim o [ none ↦ k | some p ↦ p.1 ]) (sym l ∙ e))
          (kept k same u)
]
  where
    none_is_not_some : {x : ℕ × Mailman} → ◌≡◌ {A = Option (ℕ × Mailman)} none (some x) → ⊥
    none_is_not_some p = cc

    kept :
        (k : Mailman)
        → ((u : String)
            → boxes k u
              ≡ ite (String-discrete t u) (remove ℕ_discrete (id32 a) (boxes m t)) (boxes m u))
        → (u : String) → AreKeyed (boxes k u)
    kept k same u =
        rw (same u)
          (elim (String-discrete t u)
            as (λ d. AreKeyed (ite d (remove ℕ_discrete (id32 a) (boxes m t)) (boxes m u))) [
              | yes p ↦ remove-AreKeyed (id32 a) (boxes m t) (h t)
              | no p ↦ h u
            ])

-- Of a keyed table, a packet goes once to each address registered for its topic and once to each
-- registered for any topic, so twice to an address whose topic is any if the packet's is too; and never
-- to an address with the sender's id.
pub count-recipients :
    (m : Mailman) (sender a : ℕ) (topic : String)
    → IsKeyed m
    → count ℕ_discrete a (recipients m sender topic)
      ≡ ite (ℕ_discrete (id32 sender) (id32 a)) 0 (holds (boxes m topic) a + holds (boxes m any) a)
unfolding recipients
count-recipients m sender a topic h = ground (
  arith,
  count-append ℕ_discrete a (others (id32 sender) (boxes m topic))
      (others (id32 sender) (boxes m any)),
  count-others (id32 sender) a (boxes m topic) (h topic),
  count-others (id32 sender) a (boxes m any) (h any),
)

-- How registering changes who is registered: the address given is, and one of another id is as
-- before.
pub holds-enter :
    (m : Mailman) (t u : String) (a b : ℕ)
    → holds (boxes (enter m t a) u) b
      ≡ ite
          (String-discrete t u)
          (ite (ℕ_discrete (id32 a) (id32 b)) (ite (ℕ_discrete a b) 1 0) (holds (boxes m t) b))
          (holds (boxes m u) b)
unfolding holds
holds-enter m t u a b =
    ground (arith, boxes-enter m t u a, lookup-put ℕ_discrete (id32 a) (id32 b) a (boxes m t))
