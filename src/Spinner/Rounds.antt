-- ===== src/Spinner/Rounds.antt =====
-- What a pass of `spin_once` updates, and what is in the list after it.
use daylite.Prelude.{
  ℕ, zero, suc, ◌+◌, ◌<◌, String, Option-cases, inl, inr, drop_all, ◌≡◌, refl, ap, sym, ◌∙◌, Bool,
  true, false, Option, none, some, List, [], ◌∷◌, ◌++◌, map, length, get_or, arith, drop,
}
use daylite.Outcome.{VoidResult, ok, fail, success}
use daylite.Spinner.{Spinner, Updated, Pass, serve, adopt, drop_null, update_from, tidy, spin_once}

-- The spinetts that are still there, in order.
abbrev pub live : List (Option ℕ) → List ℕ
live [] = []
live (none ∷ xs) = live xs
live (some x ∷ xs) = x ∷ live xs

live-append : (xs ys : List (Option ℕ)) → live (xs ++ ys) ≡ live xs ++ live ys
live-append [] ys = refl
live-append (none ∷ xs) ys = live-append xs ys
live-append (some x ∷ xs) ys = ap (◌∷◌ x) (live-append xs ys)

live-map : (xs : List ℕ) → live (map some xs) ≡ xs
live-map [] = refl
live-map (x ∷ xs) = ap (◌∷◌ x) (live-map xs)

live-drop_null : (xs : List (Option ℕ)) → live (drop_null xs) ≡ live xs
unfolding drop_null
live-drop_null [] = refl
live-drop_null (none ∷ xs) = refl
live-drop_null (some x ∷ xs) = ap (◌∷◌ x) (live-drop_null xs)

unfoldable here : Option ℕ → List ℕ → List ℕ
here none rest = rest
here (some x) rest = x ∷ rest

-- The list from a place on.
at_place :
    (xs : List (Option ℕ)) (i : ℕ)
    → i < length xs
    → live (drop i xs) ≡ here (get_or xs i none) (live (drop (suc i) xs))
unfolding here
at_place [] i h = absurd (omega arith)
at_place (none ∷ xs) zero h = refl
at_place (some x ∷ xs) zero h = refl
at_place (x ∷ xs) (suc i) h = at_place xs i (omega arith)

pub adopt-live : (s : Spinner) → live (drop_null (adopt s).spinetts) ≡ live s.spinetts ++ s.to_add
unfolding adopt
adopt-live s =
    live-drop_null (s.spinetts ++ map some s.to_add)
    ∙ live-append s.spinetts (map some s.to_add)
    ∙ ap (◌++◌ (live s.spinetts)) (live-map s.to_add)

module _ {S : Type 0} (update : ℕ → S → Updated S) where
  -- No update fails or asks anything of the spinner.
  abbrev pub IsQuiet : Type 0
  IsQuiet = (sp : ℕ) (w : S) → (success (update sp w).result ≡ true) × ((update sp w).requests ≡ [])

  -- An update that succeeds and asks nothing.
  record Quiet (u : Updated S) : Type 0 where
    value : Bool
    text : String
    number : ℕ
    result_ok : u.result ≡ ok value text number
    none_asked : u.requests ≡ []

  Quiet-result : (u : Updated S) → success u.result ≡ true → u.requests ≡ [] → Quiet u
  Quiet-result u s r = go u.result refl s
    where
      go : (v : VoidResult) → u.result ≡ v → success v ≡ true → Quiet u
      go (ok a m c) e t = record { value = a; text = m; number = c; result_ok = e; none_asked = r }
      go (fail m c) e t = cc

  update_from-quiet :
      IsQuiet
      → (n i : ℕ) (s : Spinner) (w : S) → length s.spinetts ≡ i + n
      → (success (update_from update n i s w).result ≡ true)
        × ((update_from update n i s w).calls ≡ live (drop i s.spinetts))
        × ((update_from update n i s w).spinner ≡ s)
  unfolding update_from serve here
  update_from-quiet q zero i s w h =
      (refl, ap live (sym (drop_all i s.spinetts (omega arith))), refl)
  update_from-quiet q (suc n) i s w h = elim (Option-cases (get_or s.spinetts i none)) [
    | inl gone ↦
        let (a, b, c) = update_from-quiet q n (suc i) s w (omega arith) in
        rw (gone, update_from)
          (
            a,
            b
                ∙ sym (
                    at_place s.spinetts i (omega arith)
                    ∙ ap (λ o. here o (live (drop (suc i) s.spinetts))) gone),
            c,
          )
    | inr (sp, there) ↦
        let u = Quiet-result (update sp w) (q sp w).0 (q sp w).1 in
        let (a, b, c) = update_from-quiet q n (suc i) s (update sp w).world (omega arith) in
        rw (there, u.result_ok, u.none_asked, update_from)
          (
            a,
            ap (◌∷◌ sp) b
                ∙ sym (
                    at_place s.spinetts i (omega arith)
                    ∙ ap (λ o. here o (live (drop (suc i) s.spinetts))) there),
            c,
          )
  ]

  pub tidy_lem :
      (p : Pass S)
      → success p.result ≡ true
      → ((tidy update p).calls ≡ p.calls)
        × (live (tidy update p).spinner.spinetts ≡ live p.spinner.spinetts ++ p.spinner.to_add)
        × ((tidy update p).spinner.to_add ≡ [])
  unfolding tidy
  tidy_lem p h = go p.result refl h
    where
      go :
          (v : VoidResult)
          → p.result ≡ v
          → success v ≡ true
          → ((tidy update p).calls ≡ p.calls)
            × (live (tidy update p).spinner.spinetts ≡ live p.spinner.spinetts ++ p.spinner.to_add)
            × ((tidy update p).spinner.to_add ≡ [])
      go (fail m c) e t = cc
      go (ok a m c) e t = rw (e, tidy) (refl, adopt-live p.spinner, refl)

  pub tidy-failed : (p : Pass S) → success p.result ≡ false → tidy update p ≡ p
  unfolding tidy
  tidy-failed p h = go p.result refl h
    where
      go : (v : VoidResult) → p.result ≡ v → success v ≡ false → tidy update p ≡ p
      go (ok a m c) e t = cc
      go (fail m c) e t = rw (e, tidy) (ap (λ r. record p { result = r }) e)

  -- A pass in which no update fails, registers or unregisters anything updates each spinett that is in
  -- the list once, in order, and takes those that wait into the list behind the others.
  pub spin_once-quiet :
      IsQuiet
      → (s : Spinner) (w : S)
      → ((spin_once update s w).calls ≡ live s.spinetts)
        × (live (spin_once update s w).spinner.spinetts ≡ live s.spinetts ++ s.to_add)
        × ((spin_once update s w).spinner.to_add ≡ [])
  unfolding spin_once
  spin_once-quiet q s w =
      let (a, b, c) = update_from-quiet q (length s.spinetts) 0 s w (omega arith) in
      let (d, e, f) = tidy_lem (update_from update (length s.spinetts) 0 s w) a in
      (d ∙ b, e ∙ ap (λ (t : Spinner). live t.spinetts ++ t.to_add) c, f)
