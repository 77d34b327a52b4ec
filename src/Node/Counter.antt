-- ===== src/Node/Counter.antt =====
-- The counters of node_impl.cpp, modulo 2^32.
use daylite.Prelude.{
  ℕ, ◌+◌, ◌-◌, ◌%◌, ◌^◌, ◌≡◌, List, [], ◌∷◌, String, String-discrete, ite, arith, count,
}
use daylite.Prelude.Assoc.{lookup-put}
use daylite.Node.{Counts, get, increment, decrement, increment_all, decrement_all}

pub get-increment :
    (t u : String) (m : Counts)
    → get u (increment t m) ≡ ite (String-discrete t u) ((get u m + 1) % 2 ^ 32) (get u m)
unfolding get increment
get-increment t u m = ground (arith, lookup-put String-discrete t u ((get t m + 1) % 2 ^ 32) m)

pub get-decrement :
    (t u : String) (m : Counts)
    → get u (decrement t m) ≡ ite (String-discrete t u) ((get u m + 2 ^ 32 - 1) % 2 ^ 32) (get u m)
unfolding get decrement
get-decrement t u m =
    ground (arith, lookup-put String-discrete t u ((get t m + 2 ^ 32 - 1) % 2 ^ 32) m)

-- A counter that stands at `x` stands at `x` and one for each occurrence after the loop.
pub get-increment_all :
    (ts : List String) (u : String) (m : Counts) (x : ℕ)
    → get u m ≡ x % 2 ^ 32
    → get u (increment_all ts m) ≡ (x + count String-discrete u ts) % 2 ^ 32
unfolding increment_all count
get-increment_all [] u m x h = omega arith
get-increment_all (t ∷ ts) u m x h = ground (
  arith,
  get-increment t u m,
  get-increment_all ts u (increment t m) (x + 1),
  get-increment_all ts u (increment t m) x,
)

-- And one that counts `x` and those occurrences too stands at `x` after the loop that takes back.
pub get-decrement_all :
    (ts : List String) (u : String) (m : Counts) (x : ℕ)
    → get u m ≡ (x + count String-discrete u ts) % 2 ^ 32
    → get u (decrement_all ts m) ≡ x % 2 ^ 32
unfolding decrement_all count
get-decrement_all [] u m x h = omega arith
get-decrement_all (t ∷ ts) u m x h =
    ground (arith, get-decrement t u m, get-decrement_all ts u (decrement t m) x)
