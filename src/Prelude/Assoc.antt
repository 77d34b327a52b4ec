-- ===== src/Prelude/Assoc.antt =====
-- `std::unordered_map` as an association list. An entry that is assigned keeps its place, and a new
-- one goes to the end; the order in which the library walks a table is not specified.
use Prim.Native.Nat.{ℕ, ◌+◌, ◌≤◌}
use mathlib.Core.Path.{◌≡◌, refl, subst}
use mathlib.Core.Logic.{ite}
use mathlib.Core.List.{List, [], ◌∷◌}
use mathlib.Core.Option.{Option, none, some, some-injective}
use native.Mathlib.Omega.{arith}

module _ {ℓ} {K V : Type ℓ} (dec : Discrete K) where
  -- m.find(k)
  unfoldable pub lookup : K → List (K × V) → Option V
  lookup k [] = none
  lookup k ((j, v) ∷ m) = ite (dec j k) (some v) (lookup k m)

  -- m[k] = v
  unfoldable pub put : K → V → List (K × V) → List (K × V)
  put k v [] = (k, v) ∷ []
  put k v ((j, w) ∷ m) = ite (dec j k) ((j, v) ∷ m) ((j, w) ∷ put k v m)

  -- m.erase(k)
  unfoldable pub remove : K → List (K × V) → List (K × V)
  remove k [] = []
  remove k ((j, w) ∷ m) = ite (dec j k) (remove k m) ((j, w) ∷ remove k m)

  pub lookup-put :
      (k j : K) (v : V) (m : List (K × V))
      → lookup j (put k v m) ≡ ite (dec k j) (some v) (lookup j m)
  unfolding lookup put
  lookup-put k j v [] = refl
  lookup-put k j v ((i, w) ∷ m) = ground (arith, lookup-put k j v m)

  pub lookup-put_self : (k : K) (v : V) (m : List (K × V)) → lookup k (put k v m) ≡ some v
  unfolding lookup put
  lookup-put_self k v [] = ground arith
  lookup-put_self k v ((j, w) ∷ m) = ground (arith, lookup-put_self k v m)

  pub lookup-remove :
      (k j : K) (m : List (K × V)) → lookup j (remove k m) ≡ ite (dec k j) none (lookup j m)
  unfolding lookup remove
  lookup-remove k j [] = ground arith
  lookup-remove k j ((i, w) ∷ m) = ground (arith, lookup-remove k j m)

  -- The sum of a measure over the entries.
  unfoldable pub total : (V → ℕ) → List (K × V) → ℕ
  total f [] = 0
  total f ((j, v) ∷ m) = f v + total f m

  pub total-put_new :
      (f : V → ℕ) (k : K) (v : V) (m : List (K × V))
      → lookup k m ≡ none
      → total f (put k v m) ≡ total f m + f v
  unfolding lookup put total
  total-put_new f k v [] h = omega arith
  total-put_new f k v ((j, w) ∷ m) h = ground (arith, total-put_new f k v m)

  pub total-put_old :
      (f : V → ℕ) (k : K) (v w : V) (m : List (K × V))
      → lookup k m ≡ some w
      → total f (put k v m) + f w ≡ total f m + f v
  unfolding lookup put total
  total-put_old f k v w [] h = cc
  total-put_old f k v w ((j, u) ∷ m) h = ground (arith, total-put_old f k v w m)

  pub remove_absent : (k : K) (m : List (K × V)) → lookup k m ≡ none → remove k m ≡ m
  unfolding lookup remove
  remove_absent k [] h = refl
  remove_absent k ((i, w) ∷ m) h = ground (arith, remove_absent k m)

  pub remove-put : (k : K) (v : V) (m : List (K × V)) → remove k (put k v m) ≡ remove k m
  unfolding put remove
  remove-put k v [] = ground arith
  remove-put k v ((i, w) ∷ m) = ground (arith, remove-put k v m)

  pub le-total :
      (f : V → ℕ) (k : K) (v : V) (m : List (K × V)) → lookup k m ≡ some v → f v ≤ total f m
  unfolding lookup total
  le-total f k v [] h = cc
  le-total f k v ((i, w) ∷ m) h = ground (arith, le-total f k v m)

-- What holds of every value.
module _ {K V : Type 0} (dec : Discrete K) (P : V → Type 0) where
  abbrev pub AllValues : List (K × V) → Type 0
  AllValues [] = Unit
  AllValues ((k, v) ∷ m) = P v × AllValues m

  pub put-AllValues :
      (k : K) (v : V) (m : List (K × V)) → P v → AllValues m → AllValues (put dec k v m)
  unfolding put
  put-AllValues k v [] h a = (h, tt)
  put-AllValues k v ((j, w) ∷ m) h a =
      elim (dec j k) as (λ d. AllValues (ite d ((j, v) ∷ m) ((j, w) ∷ put dec k v m))) [
        | yes e ↦ (h, a.1)
        | no e ↦ (a.0, put-AllValues k v m h a.1)
      ]

  pub remove-AllValues : (k : K) (m : List (K × V)) → AllValues m → AllValues (remove dec k m)
  unfolding remove
  remove-AllValues k [] a = tt
  remove-AllValues k ((j, w) ∷ m) a =
      elim (dec j k) as (λ d. AllValues (ite d (remove dec k m) ((j, w) ∷ remove dec k m))) [
        | yes e ↦ remove-AllValues k m a.1
        | no e ↦ (a.0, remove-AllValues k m a.1)
      ]

  pub lookup-AllValues :
      (k : K) (v : V) (m : List (K × V)) → lookup dec k m ≡ some v → AllValues m → P v
  unfolding lookup
  lookup-AllValues k v [] e a = absurd (ground arith)
  lookup-AllValues k v ((j, w) ∷ m) e a =
      elim (dec j k) as (λ d. ite d (some w) (lookup dec k m) ≡ some v → P v) [
        | yes h ↦ λ f. subst P (some-injective _ _ f) a.0
        | no h ↦ λ f. lookup-AllValues k v m f a.1
      ]
        e
