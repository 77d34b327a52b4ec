-- ===== src/Spinner.antt =====
-- libdaylite/src/spinner_impl.cpp and .hpp: the list of the objects whose `spin_update` is called in
-- turn. A spinett is named by its address; what an update does to the spinner itself, by making and
-- destroying spinetts, is the list of its requests.
pub mod Rounds
pub mod Waiting
mod Tests
use daylite.Prelude.{
  ℕ, zero, suc, Bool, true, Option, none, some, List, [], ◌∷◌, ◌++◌, map, length, get_or, ◌==◌,
  if◌then◌else◌,
}
use daylite.Outcome.{VoidResult, ok, fail, done}

pub record Spinner : Type 0 where
  pub to_add : List ℕ
  pub spinetts : List (Option ℕ)

pub data Request : Type 0 where
  joins quits : ℕ → Request

-- What a `spin_update` returns, what it asks of the spinner, and the state of everything else.
pub record Updated (S : Type 0) : Type 0 where
  pub result : VoidResult
  pub requests : List Request
  pub world : S

-- A call of `spin_once`: `calls` are the spinetts that it updated, in order.
pub record Pass (S : Type 0) : Type 0 where
  pub result : VoidResult
  pub calls : List ℕ
  pub spinner : Spinner
  pub world : S

unfoldable pub register_spinett : ℕ → Spinner → VoidResult × Spinner
register_spinett sp s = (done, record s { to_add = s.to_add ++ sp ∷ [] })

unfoldable pub null_out : ℕ → List (Option ℕ) → List (Option ℕ)
null_out sp [] = []
null_out sp (none ∷ xs) = none ∷ null_out sp xs
null_out sp (some x ∷ xs) = (if x == sp then none else some x) ∷ null_out sp xs

unfoldable pub unregister_spinett : ℕ → Spinner → VoidResult × Spinner
unfolding null_out
unregister_spinett sp s = (done, record s { spinetts = null_out sp s.spinetts })

unfoldable pub serve : List Request → Spinner → Spinner
unfolding register_spinett unregister_spinett
serve [] s = s
serve (joins sp ∷ rs) s = serve rs (register_spinett sp s).1
serve (quits sp ∷ rs) s = serve rs (unregister_spinett sp s).1

-- The insertion of `_spinetts_to_add`, and its clearing.
unfoldable pub adopt : Spinner → Spinner
adopt s = record s { spinetts = s.spinetts ++ map some s.to_add; to_add = [] }

-- The loop that erases the first null.
unfoldable pub drop_null : List (Option ℕ) → List (Option ℕ)
drop_null [] = []
drop_null (none ∷ xs) = xs
drop_null (some x ∷ xs) = some x ∷ drop_null xs

module _ {S : Type 0} (update : ℕ → S → Updated S) where
  -- The first loop of `spin_once`, from the place `i` on, with `n` places to go. No request changes
  -- the length of the list.
  unfoldable pub update_from : ℕ → ℕ → Spinner → S → Pass S
  unfolding serve
  update_from zero i s w = record { result = done; calls = []; spinner = s; world = w }
  update_from (suc n) i s w = elim (get_or s.spinetts i none) [
    | none ↦ update_from n (suc i) s w
    | some sp ↦
        let s' = serve (update sp w).requests s in
        elim (update sp w).result [
          | fail m c ↦ record {
            result = fail m c;
            calls = sp ∷ [];
            spinner = s';
            world = (update sp w).world;
          }
          | ok _ _ _ ↦
              let rest = update_from n (suc i) s' (update sp w).world in
              record rest { calls = sp ∷ rest.calls }
        ]
  ]

  -- What `spin_once` does after its first loop.
  unfoldable pub tidy : Pass S → Pass S
  unfolding adopt drop_null
  tidy p = elim p.result [
    | fail m c ↦ p
    | ok _ _ _ ↦ record p {
      result = done;
      spinner = record (adopt p.spinner) { spinetts = drop_null (adopt p.spinner).spinetts };
    }
  ]

  unfoldable pub spin_once : Spinner → S → Pass S
  unfolding update_from tidy
  spin_once s w = tidy (update_from (length s.spinetts) 0 s w)
