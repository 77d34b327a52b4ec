-- ===== src/Splat/Names.antt =====
-- The files behind the splats and their names.
use Prim.Native.String.{[] as empty, ◌∷◌ as cons, ◌++◌ as join}
use Prim.Native.Char.{code}
use daylite.Prelude.{
  ℕ, zero, suc, ◌/◌, ◌%◌, ◌==◌, ltb, List, [], ◌∷◌, String, String-discrete, ℕ_discrete, get_or,
  if◌then◌else◌, ◌≡◌, ap,
}

-- The node's id and the topic without its slashes, of which the name "/tmp/<id>-<topic>.splat" is made.
abbrev pub FileName : Type 0
FileName = ℕ × String

unfoldable pub fixed_topic : String → String
fixed_topic empty = empty
fixed_topic (cons c s) = if code c == b'/' then cons "!" (fixed_topic s) else cons c (fixed_topic s)

both : {i j : ℕ} {s t : String} → Dec (i ≡ j) → Dec (s ≡ t) → Dec (◌≡◌ {A = FileName} (i, s) (j, t))
both (yes p) (yes q) = yes (λ k. (p k, q k))
both (yes p) (no q) = no (λ e. q (ap (λ n. n.1) e))
both (no p) d = no (λ e. p (ap (λ n. n.0) e))

unfoldable pub FileName-discrete : Discrete FileName
unfolding both ℕ_discrete String-discrete
FileName-discrete (i, s) (j, t) = both (ℕ_discrete i j) (String-discrete s t)

-- `stringstream << uint32_t`: the decimal digits, with a bound on their number.
abbrev digit : ℕ → String
digit n = get_or ("0" ∷ "1" ∷ "2" ∷ "3" ∷ "4" ∷ "5" ∷ "6" ∷ "7" ∷ "8" ∷ "9" ∷ []) n ""

abbrev decimal : ℕ → ℕ → String
decimal zero n = ""
decimal (suc bound) n =
    let rest = decimal bound (n / 10) in if ltb n 10 then digit n else join rest (digit (n % 10))

-- A `uint32_t` has ten digits at most.
unfoldable pub path : FileName → String
path (node_id, topic) = join "/tmp/" (join (decimal 10 node_id) (join "-" (join topic ".splat")))

-- `splat_data`, without its mutex: `data` is all of the file behind it.
pub record SplatData : Type 0 where
  pub version : ℕ
  pub size : ℕ
  pub bytes : List ℕ

-- The files that are there. The name of a file is what it is mapped by.
abbrev pub Files : Type 0
Files = List (FileName × SplatData)
