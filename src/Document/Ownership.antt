-- ===== src/Document/Ownership.antt =====
-- How often a document is destroyed, over any sequence of calls on objects that share it.
use daylite.Prelude.{
  ◌∙◌, ℕ, ◌≤◌, ◌≡◌, refl, Bool, true, false, not, none, some, List, [], ◌∷◌, ℕ_discrete, arith,
}
use daylite.Prelude.Assoc.{lookup, le-total}
use daylite.Document.{
  SharedPtr, Bson, gone, live, handed, copied, Memory, happens, bson_copy, reset, store, of_raw,
  of_const, of_nothing, raw_of, of_bson, assign, destroy,
}
use daylite.Document.Script.{
  Call, makes, makes_const, makes_empty, copies, assigns, dies, hand, is_live, is_proper, call,
  run_calls,
}
use daylite.Document.Sharing.{
  at, holds, holders, held_by, IsShared, IsGiven, handed-IsGiven, copied-IsGiven, store-IsShared,
  reset-IsShared, share-IsShared, release-IsShared,
}

-- The `_raw` of an object is what its entry holds.
raw_of-lookup :
    (name : ℕ) (p : SharedPtr) (m : Memory)
    → raw_of name m ≡ some p
    → lookup ℕ_discrete name m.objects ≡ some (live p)
unfolding raw_of
raw_of-lookup name p m e = ground arith

-- A name of no object that lives holds nothing.
held_by-dead : (b name : ℕ) (m : Memory) → is_live name m ≡ false → held_by b name m ≡ 0
unfolding is_live raw_of
held_by-dead b name m e = ground arith

-- An object that lives has a pointer.
live-raw_of :
    (name : ℕ) (m : Memory) → is_live name m ≡ true → (p : SharedPtr) × (raw_of name m ≡ some p)
unfolding is_live
live-raw_of name m e =
    elim (raw_of name m)
        as (λ o. elim o [ none ↦ false | some p ↦ true ] ≡ true → (p : SharedPtr) × (o ≡ some p)) [
          | none ↦ λ f. cc
          | some p ↦ λ f. (p, refl)
        ]
      e

-- The pointer beside the objects goes into a new one.
make-IsShared :
    (name : ℕ) (p : SharedPtr) (m : Memory)
    → is_live name m ≡ false
    → IsShared p m
    → IsShared none (store name (live p) m)
make-IsShared name p m dead =
    store-IsShared name (live p) p none m λ b. omega (arith, held_by-dead b name m dead)

-- The entry of an object that lives takes the pointer, and its own is then beside the objects.
swap-IsShared :
    (name : ℕ) (w : Bson) (p q : SharedPtr) (m : Memory)
    → ((b : ℕ) → holds b w ≡ at b p)
    → raw_of name m ≡ some q
    → IsShared p m
    → IsShared q (store name w m)
swap-IsShared name w p q m same e =
    store-IsShared name w p q m λ b. ground (arith, same b, raw_of-lookup name q m e)

at-le_holders :
    (name : ℕ) (p : SharedPtr) (m : Memory)
    → raw_of name m ≡ some p
    → (b : ℕ) → at b p ≤ holders b m
at-le_holders name p m e b =
    le-total ℕ_discrete (holds b) name (live p) m.objects (raw_of-lookup name p m e)

-- What lives, and with what, is read from the objects.
raw_of-objects :
    (name : ℕ) (m m' : Memory) → m'.objects ≡ m.objects → raw_of name m' ≡ raw_of name m
unfolding raw_of
raw_of-objects name m m' e = ground (arith, e)

is_live-objects :
    (name : ℕ) (m m' : Memory) → m'.objects ≡ m.objects → is_live name m' ≡ is_live name m
unfolding is_live
is_live-objects name m m' e = ground (arith, raw_of-objects name m m' e)

-- What a proper call leaves.
abbrev Goes : Call → Memory → Type 0
Goes c m = (m' : Memory) × (call c m ≡ some m') × IsShared none m'

fresh-IsShared :
    (name raw : ℕ) (m : Memory)
    → is_live name m ≡ false
    → IsGiven raw m
    → IsShared none (store name (live (reset raw m).0) (reset raw m).1)
unfolding reset is_live raw_of
fresh-IsShared name raw m dead v =
    make-IsShared name (reset raw m).0 (reset raw m).1 dead (reset-IsShared raw m v)

makes-IsShared :
    (name raw : ℕ) (owns : Bool) (copy : ℕ) (m : Memory)
    → is_live name m ≡ false
    → IsShared none m
    → Goes (makes name raw owns copy) m
unfolding call of_raw bson_copy hand is_live raw_of
makes-IsShared name raw true copy m dead v =
    (_, refl, fresh-IsShared name raw (happens (handed raw) m) dead (handed-IsGiven raw m v))
makes-IsShared name raw false copy m dead v =
    (_, refl, fresh-IsShared name copy (happens (copied copy) m) dead (copied-IsGiven copy m v))

copies-IsShared :
    (name rhs : ℕ) (p : SharedPtr) (m : Memory)
    → is_live name m ≡ false
    → raw_of rhs m ≡ some p
    → IsShared none m
    → Goes (copies name rhs) m
unfolding call of_bson is_live raw_of
copies-IsShared name rhs p m dead e v =
    let (m', shared, w, same) = share-IsShared p m (at-le_holders rhs p m e) v in
    (
      store name (live p) m',
      ground (arith, e, shared),
      make-IsShared name p m' (is_live-objects name m m' same ∙ dead) w,
    )

assigns-IsShared :
    (name rhs : ℕ) (q p : SharedPtr) (m : Memory)
    → raw_of name m ≡ some q
    → raw_of rhs m ≡ some p
    → IsShared none m
    → Goes (assigns name rhs) m
unfolding call assign
assigns-IsShared name rhs q p m e f v =
    let (m', shared, w, same) = share-IsShared p m (at-le_holders rhs p m f) v in
    let (after, released, x) =
      release-IsShared q (store name (live p) m')
        (swap-IsShared name (live p) p q m' (λ b. refl) (raw_of-objects name m m' same ∙ e) w) in
    (after, ground (arith, e, f, shared, released), x)

dies-IsShared :
    (name : ℕ) (q : SharedPtr) (m : Memory)
    → raw_of name m ≡ some q
    → IsShared none m
    → Goes (dies name) m
unfolding call destroy
dies-IsShared name q m e v =
    let (after, released, x) =
      release-IsShared q (store name gone m) (swap-IsShared name gone none q m (λ b. refl) e v) in
    (after, ground (arith, e, released), x)

dead_of : (name : ℕ) (m : Memory) → not (is_live name m) ≡ true → is_live name m ≡ false
dead_of name m e = ground arith

call-IsShared : (c : Call) (m : Memory) → is_proper c m ≡ true → IsShared none m → Goes c m
unfolding is_proper call of_const of_nothing bson_copy is_live raw_of
call-IsShared (makes name raw owns copy) m ok v =
    makes-IsShared name raw owns copy m (dead_of name m ok) v
call-IsShared (makes_const name copy) m ok v = (
  _,
  refl,
  fresh-IsShared name copy (happens (copied copy) m) (dead_of name m ok) (copied-IsGiven copy m v),
)
call-IsShared (makes_empty name) m ok v = (_, refl, make-IsShared name none m (dead_of name m ok) v)
call-IsShared (copies name rhs) m ok v =
    let (p, e) = live-raw_of rhs m (ground arith) in copies-IsShared name rhs p m (ground arith) e v
call-IsShared (assigns name rhs) m ok v =
    let (q, e) = live-raw_of name m (ground arith) in
    let (p, f) = live-raw_of rhs m (ground arith) in assigns-IsShared name rhs q p m e f v
call-IsShared (dies name) m ok v = let (q, e) = live-raw_of name m ok in dies-IsShared name q m e v

-- Of the calls of a program none uses a block that is gone; afterwards every block counts the objects that
-- share it, and of every address, what callers handed over and bson_copy made, and nothing else, was
-- destroyed, each once, or is kept by a block that some object shares: so the document of a caller that
-- passes `false` is not destroyed.
pub run_calls-IsShared :
    (cs : List Call) (m : Memory)
    → IsShared none m
    → (m' : Memory) × (run_calls cs m ≡ some m') × IsShared none m'
unfolding run_calls
run_calls-IsShared [] m v = (m, refl, v)
run_calls-IsShared (c ∷ cs) m v =
    elim (is_proper c m)
        as (λ b.
          is_proper c m ≡ b → (m' : Memory) × (run_calls (c ∷ cs) m ≡ some m') × IsShared none m') [
            | true ↦ λ ok.
                let (after, e, w) = call-IsShared c m ok v in
                let (m', f, x) = run_calls-IsShared cs after w in (m', ground (arith, ok, e, f), x)
            | false ↦
                λ ok. let (m', f, x) = run_calls-IsShared cs m v in (m', ground (arith, ok, f), x)
          ]
      refl
