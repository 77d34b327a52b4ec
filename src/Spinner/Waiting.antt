-- ===== src/Spinner/Waiting.antt =====
-- What becomes of a spinett that is destroyed.
use mathlib.Core.Option.{some-injective}
use daylite.Prelude.{
  ℕ, zero, suc, ◌+◌, ◌<◌, ◌≢◌, Bool-cases, ◌≡◌, refl, ap, ◌∙◌, Option, none, some, List, [], ◌∷◌,
  ◌++◌, length, get_or, ◌==◌, if◌then◌else◌, count, count-append, ℕ_discrete, arith, Option-cases,
  inl, inr,
}
use daylite.Outcome.{VoidResult, ok, fail, success}
use daylite.Spinner.{
  Spinner, Request, joins, quits, Updated, Pass, register_spinett, null_out, unregister_spinett,
  serve, update_from, tidy, spin_once,
}
use daylite.Spinner.Rounds.{live, IsQuiet, spin_once-quiet, tidy_lem, tidy-failed}

-- How often an address stands in the list, and how often it waits to get in.
unfoldable pub listed : ℕ → Spinner → ℕ
unfolding count
listed sp s = count ℕ_discrete sp (live s.spinetts)

unfoldable pub waiting : ℕ → Spinner → ℕ
unfolding count
waiting sp s = count ℕ_discrete sp s.to_add

count-null_out :
    (a b : ℕ) (xs : List (Option ℕ))
    → count ℕ_discrete b (live (null_out a xs))
      ≡ (if a == b then 0 else count ℕ_discrete b (live xs))
unfolding null_out count
count-null_out a b [] = ground arith
count-null_out a b (none ∷ xs) = count-null_out a b xs
count-null_out a b (some x ∷ xs) = ground (arith, count-null_out a b xs)

pub waiting-register_spinett :
    (a b : ℕ) (s : Spinner)
    → (listed b (register_spinett a s).1 ≡ listed b s)
      × (waiting b (register_spinett a s).1 ≡ waiting b s + (if a == b then 1 else 0))
unfolding register_spinett listed waiting count
waiting-register_spinett a b s = (refl, ground (arith, count-append ℕ_discrete b s.to_add (a ∷ [])))

pub listed-unregister_spinett :
    (a b : ℕ) (s : Spinner)
    → (listed b (unregister_spinett a s).1 ≡ (if a == b then 0 else listed b s))
      × (waiting b (unregister_spinett a s).1 ≡ waiting b s)
unfolding unregister_spinett listed waiting
listed-unregister_spinett a b s = (count-null_out a b s.spinetts, refl)

-- A spinett that is destroyed before the pass that would take it into the list is in the list after
-- that pass all the same, if no update fails, registers or unregisters anything: the next pass calls
-- `spin_update` of an object that is gone.
pub listed-register_spinett :
    {S : Type 0} (update : ℕ → S → Updated S)
    → IsQuiet update
    → (sp : ℕ) (s : Spinner) (w : S) → waiting sp s ≡ 0
    → listed sp (spin_once update (unregister_spinett sp (register_spinett sp s).1).1 w).spinner ≡ 1
unfolding listed waiting
listed-register_spinett update q sp s w h = ground (
  arith,
  ap (count ℕ_discrete sp) (spin_once-quiet update q s' w).1,
  count-append ℕ_discrete sp (live s'.spinetts) s'.to_add,
  waiting-register_spinett sp sp s,
  listed-unregister_spinett sp sp (register_spinett sp s).1,
)
  where
    s' : Spinner
    s' = (unregister_spinett sp (register_spinett sp s).1).1

-- No request of the list makes the spinett again.
abbrev pub Spares : ℕ → List Request → Type 0
Spares sp [] = Unit {0}
Spares sp (joins x ∷ rs) = (x ≡ sp → ⊥) × Spares sp rs
Spares sp (quits x ∷ rs) = Spares sp rs

-- Neither in the list nor waiting.
abbrev pub IsGone : ℕ → Spinner → Type 0
IsGone sp s = (listed sp s ≡ 0) × (waiting sp s ≡ 0)

serve-IsGone :
    (sp : ℕ) (rs : List Request) (s : Spinner) → Spares sp rs → IsGone sp s → IsGone sp (serve rs s)
unfolding serve
serve-IsGone sp [] s a g = g
serve-IsGone sp (joins x ∷ rs) s a g =
    serve-IsGone sp rs _ a.1 (ground (arith, waiting-register_spinett x sp s, a.0))
serve-IsGone sp (quits x ∷ rs) s a g =
    serve-IsGone sp rs _ a (ground (arith, listed-unregister_spinett x sp s))

count-get_or :
    (xs : List (Option ℕ)) (i x : ℕ) → get_or xs i none ≡ some x → 0 < count ℕ_discrete x (live xs)
unfolding count
count-get_or [] i x e = cc
count-get_or (none ∷ xs) zero x e = cc
count-get_or (some y ∷ xs) zero x e = ground (arith, some-injective y x e)
count-get_or (none ∷ xs) (suc i) x e = count-get_or xs i x e
count-get_or (some y ∷ xs) (suc i) x e = ground (arith, count-get_or xs i x e)

not_listed : (sp x i : ℕ) (s : Spinner) → get_or s.spinetts i none ≡ some x → IsGone sp s → x ≢ sp
unfolding listed
not_listed sp x i s e g same =
    omega (
      arith,
      count-get_or s.spinetts i x e,
      ap (λ y. count ℕ_discrete y (live s.spinetts)) same,
      g.0,
    )

module _ {S : Type 0} (update : ℕ → S → Updated S) (sp : ℕ)
    (spares : (x : ℕ) (w : S) → Spares sp (update x w).requests) where
  -- The two ways to go on after an update.
  after_update :
      (x : ℕ) (s : Spinner) (w : S) (rest : Pass S) (v : VoidResult)
      → x ≢ sp
      → IsGone sp s
      → (count ℕ_discrete sp rest.calls ≡ 0) × IsGone sp rest.spinner
      → let p : Pass S = elim v [
        | fail m c ↦ record { result = fail m c; calls = x ∷ []; spinner = s; world = w }
        | ok _ _ _ ↦ record rest { calls = x ∷ rest.calls }
      ] in
        (count ℕ_discrete sp p.calls ≡ 0) × IsGone sp p.spinner
  unfolding count
  after_update x s w rest (fail m c) ne g r = (ground arith, g)
  after_update x s w rest (ok a m c) ne g r = (ground (arith, r.0), r.1)

  tidy-IsGone :
      (p : Pass S)
      → count ℕ_discrete sp p.calls ≡ 0
      → IsGone sp p.spinner
      → (count ℕ_discrete sp (tidy update p).calls ≡ 0) × IsGone sp (tidy update p).spinner
  unfolding listed waiting count
  tidy-IsGone p a g = elim (Bool-cases (success p.result)) [
    | inl fine ↦
        let (d, e, f) = tidy_lem update p fine in
        (
          ap (count ℕ_discrete sp) d ∙ a,
          (
            ground (
              arith,
              ap (count ℕ_discrete sp) e,
              count-append ℕ_discrete sp (live p.spinner.spinetts) p.spinner.to_add,
              g.0,
              g.1,
            ),
            ap (count ℕ_discrete sp) f,
          ),
        )
    | inr broken ↦ rw (tidy-failed update p broken) (a, g)
  ]

  update_from-IsGone :
      (n i : ℕ) (s : Spinner) (w : S)
      → IsGone sp s
      → (count ℕ_discrete sp (update_from update n i s w).calls ≡ 0)
        × IsGone sp (update_from update n i s w).spinner
  unfolding update_from count
  update_from-IsGone zero i s w g = (refl, g)
  update_from-IsGone (suc n) i s w g = elim (Option-cases (get_or s.spinetts i none)) [
    | inl none_here ↦ rw (none_here, update_from) (update_from-IsGone n (suc i) s w g)
    | inr (x, there) ↦
        let g' = serve-IsGone sp (update x w).requests s (spares x w) g in
        let rest =
          update_from-IsGone n (suc i) (serve (update x w).requests s) (update x w).world g' in
        rw (there, update_from)
          (after_update x (serve (update x w).requests s) (update x w).world
            (update_from update n (suc i) (serve (update x w).requests s) (update x w).world)
            (update x w).result (not_listed sp x i s there g) g' rest)
  ]

  spin_once-IsGone :
      (s : Spinner) (w : S)
      → IsGone sp s
      → (count ℕ_discrete sp (spin_once update s w).calls ≡ 0)
        × IsGone sp (spin_once update s w).spinner
  unfolding spin_once
  spin_once-IsGone s w g =
      let (a, b) = update_from-IsGone (length s.spinetts) 0 s w g in
      tidy-IsGone (update_from update (length s.spinetts) 0 s w) a b

  -- Passes one after the other, whatever each returns: the spinetts that they update, in order.
  unfoldable pub calls_of : ℕ → Spinner → S → List ℕ
  unfolding spin_once
  calls_of zero s w = []
  calls_of (suc n) s w = let p = spin_once update s w in p.calls ++ calls_of n p.spinner p.world

  calls_of-IsGone :
      (n : ℕ) (s : Spinner) (w : S) → IsGone sp s → count ℕ_discrete sp (calls_of n s w) ≡ 0
  unfolding calls_of count
  calls_of-IsGone zero s w g = refl
  calls_of-IsGone (suc n) s w g =
      let p = spin_once update s w in
      let (a, b) = spin_once-IsGone s w g in
      ground (
        arith,
        a,
        count-append ℕ_discrete sp p.calls (calls_of n p.spinner p.world),
        calls_of-IsGone n p.spinner p.world b,
      )

  -- A spinett that does not wait to get into the list and is destroyed, between two passes or by the
  -- update of another one in the midst of a pass, is not updated any more: not by the rest of the pass,
  -- from whatever place on and for however many, and not by any number of passes after it, unless an
  -- update makes a spinett at its address.
  pub unregister_spinett-calls :
      (s : Spinner) (w : S) (i left n : ℕ)
      → waiting sp s ≡ 0
      → let s' = (unregister_spinett sp s).1 in
        let rest = update_from update left i s' w in
        (count ℕ_discrete sp rest.calls ≡ 0)
        × (count ℕ_discrete sp (calls_of n (tidy update rest).spinner (tidy update rest).world) ≡ 0)
        × (count ℕ_discrete sp (calls_of n s' w) ≡ 0)
  unregister_spinett-calls s w i left n h =
      let s' = (unregister_spinett sp s).1 in
      let rest = update_from update left i s' w in
      let gone : IsGone sp s' = ground (arith, h, listed-unregister_spinett sp sp s) in
      let (a, b) = update_from-IsGone left i s' w gone in
      (
        a,
        calls_of-IsGone n (tidy update rest).spinner (tidy update rest).world
            (tidy-IsGone rest a b).1,
        calls_of-IsGone n s' w gone,
      )
