-- ===== src/Document/Sharing.antt =====
-- The blocks of documents against the objects that share them, step by step.
use daylite.Prelude.{
  ℕ, zero, suc, ◌+◌, ◌-◌, ◌≤◌, ◌==◌, ◌≡◌, refl, not, ◌&&◌, none, some, List, [], ◌∷◌, ite,
  ℕ_discrete, arith, if◌then◌else◌,
}
use daylite.Prelude.Assoc.{lookup, put, lookup-put, total, total-put_new, total-put_old}
use daylite.Document.{
  SharedPtr, Block, Bson, gone, live, Event, handed, copied, destroyed, Memory, happens, reset,
  add_owner, drop_owner, share, release, store,
}

-- 1 for a pointer that counts in the block, and 0 for another.
abbrev pub at : ℕ → SharedPtr → ℕ
at b none = 0
at b (some c) = ite (ℕ_discrete c b) 1 0

abbrev pub holds : ℕ → Bson → ℕ
holds b gone = 0
holds b (live p) = at b p

-- The objects that share a block.
abbrev pub holders : ℕ → Memory → ℕ
holders b m = total ℕ_discrete (holds b) m.objects

abbrev pub owners_of : ℕ → List (ℕ × Block) → ℕ
owners_of b blocks = elim (lookup ℕ_discrete b blocks) [ none ↦ 0 | some k ↦ k.owners ]

abbrev pub kept_at : ℕ → Block → ℕ
kept_at raw k = if k.raw == raw && not (k.owners == 0) then 1 else 0

-- The blocks with an owner that have the address.
abbrev pub kept : ℕ → Memory → ℕ
kept raw m = total ℕ_discrete (kept_at raw) m.blocks

-- How often the address was handed over or answered by bson_copy.
unfoldable pub given : ℕ → List Event → ℕ
given raw [] = 0
given raw (handed r ∷ es) = (if r == raw then 1 else 0) + given raw es
given raw (copied r ∷ es) = (if r == raw then 1 else 0) + given raw es
given raw (destroyed r ∷ es) = given raw es

unfoldable pub ended : ℕ → List Event → ℕ
ended raw [] = 0
ended raw (handed r ∷ es) = ended raw es
ended raw (copied r ∷ es) = ended raw es
ended raw (destroyed r ∷ es) = (if r == raw then 1 else 0) + ended raw es

-- Every block counts the objects that share it and the pointer `p`, which no object has yet or any
-- more; and of every address, each document is either destroyed or has a block with an owner.
pub record IsShared (p : SharedPtr) (m : Memory) : Type 0 where
  pub counted : (b : ℕ) → holders b m + at b p ≡ owners_of b m.blocks
  pub fresh : (b : ℕ) → m.next ≤ b → lookup ℕ_discrete b m.blocks ≡ none
  pub balanced : (raw : ℕ) → given raw m.events ≡ ended raw m.events + kept raw m

-- An entry of an object that is put replaces the one that it had, if any.
abbrev pub held_by : ℕ → ℕ → Memory → ℕ
held_by b name m = elim (lookup ℕ_discrete name m.objects) [ none ↦ 0 | some w ↦ holds b w ]

total-put :
    (f : Bson → ℕ) (name : ℕ) (w : Bson) (objects : List (ℕ × Bson))
    → total ℕ_discrete f (put ℕ_discrete name w objects)
        + elim (lookup ℕ_discrete name objects) [ none ↦ 0 | some v ↦ f v ]
      ≡ total ℕ_discrete f objects + f w
total-put f name w objects =
    elim (lookup ℕ_discrete name objects)
        as (λ o.
          lookup ℕ_discrete name objects ≡ o
          → total ℕ_discrete f (put ℕ_discrete name w objects) + elim o [ none ↦ 0 | some v ↦ f v ]
            ≡ total ℕ_discrete f objects + f w) [
              | none ↦ λ e. omega (arith, total-put_new ℕ_discrete f name w objects e)
              | some v ↦ λ e. total-put_old ℕ_discrete f name w v objects e
            ]
      refl

-- What is in an object and the pointer beside it change places.
pub store-IsShared :
    (name : ℕ) (w : Bson) (p q : SharedPtr) (m : Memory)
    → ((b : ℕ) → holds b w + at b q ≡ held_by b name m + at b p)
    → IsShared p m
    → IsShared q (store name w m)
unfolding store
store-IsShared name w p q m h v = record {
  counted = λ b. omega (arith, h b, v.counted b, total-put (holds b) name w m.objects);
  fresh = v.fresh;
  balanced = v.balanced;
}

-- A block with a new number of owners, for a pointer that comes or goes.
put-IsShared :
    (b : ℕ) (k : Block) (n : ℕ) (p q : SharedPtr) (es : List Event) (m : Memory)
    → lookup ℕ_discrete b m.blocks ≡ some k
    → ((c : ℕ) → at c q + ite (ℕ_discrete b c) k.owners 0 ≡ at c p + ite (ℕ_discrete b c) n 0)
    → ((raw : ℕ)
        → given raw es + ended raw m.events + kept_at raw k
          ≡ given raw m.events + ended raw es + kept_at raw (record k { owners = n }))
    → IsShared p m
    → IsShared q
        (record m { blocks = put ℕ_discrete b (record k { owners = n }) m.blocks; events = es })
put-IsShared b k n p q es m found moved logged v = record {
  counted = λ c. ground (
    arith,
    found,
    moved c,
    v.counted c,
    lookup-put ℕ_discrete b c (record k { owners = n }) m.blocks,
  );
  fresh = λ c le.
      ground
        (arith, found, v.fresh c le, lookup-put ℕ_discrete b c (record k { owners = n }) m.blocks);
  balanced = λ raw. omega (
    arith,
    logged raw,
    v.balanced raw,
    total-put_old ℕ_discrete (kept_at raw) b (record k { owners = n }) k m.blocks found,
  );
}

-- One more document is given than there are blocks for: the one at the address.
pub record IsGiven (raw : ℕ) (m : Memory) : Type 0 where
  pub counted : (b : ℕ) → holders b m ≡ owners_of b m.blocks
  pub fresh : (b : ℕ) → m.next ≤ b → lookup ℕ_discrete b m.blocks ≡ none
  pub balanced :
      (r : ℕ) → given r m.events ≡ ended r m.events + kept r m + (if raw == r then 1 else 0)

-- A pointer to it makes up for that.
pub reset-IsShared :
    (raw : ℕ) (m : Memory) → IsGiven raw m → IsShared (reset raw m).0 (reset raw m).1
unfolding reset
reset-IsShared raw m v = record {
  counted = λ c. ground (
    arith,
    v.counted c,
    v.fresh m.next,
    lookup-put ℕ_discrete m.next c (record { raw = raw; owners = 1 }) m.blocks,
  );
  fresh = λ c le. ground (
    arith,
    v.fresh c,
    lookup-put ℕ_discrete m.next c (record { raw = raw; owners = 1 }) m.blocks,
  );
  balanced = λ r. ground (
    arith,
    v.balanced r,
    total-put_new ℕ_discrete (kept_at r) m.next (record { raw = raw; owners = 1 }) m.blocks
        (v.fresh m.next (omega arith)),
  );
}

pub copied-IsGiven : (raw : ℕ) (m : Memory) → IsShared none m → IsGiven raw (happens (copied raw) m)
unfolding given ended
copied-IsGiven raw m v = record {
  counted = λ b. omega (arith, v.counted b);
  fresh = v.fresh;
  balanced = λ r. ground (arith, v.balanced r);
}

pub handed-IsGiven : (raw : ℕ) (m : Memory) → IsShared none m → IsGiven raw (happens (handed raw) m)
unfolding given ended
handed-IsGiven raw m v = record {
  counted = λ b. omega (arith, v.counted b);
  fresh = v.fresh;
  balanced = λ r. ground (arith, v.balanced r);
}

at_self : (b : ℕ) → at b (some b) ≡ 1
at_self b = ground arith

-- A block that an object or the pointer beside them shares has an owner.
has_owner :
    (b : ℕ) (p : SharedPtr) (m : Memory)
    → IsShared p m
    → 1 ≤ holders b m + at b p
    → (k : Block) × (n : ℕ) × (lookup ℕ_discrete b m.blocks ≡ some k) × (k.owners ≡ suc n)
has_owner b p m v le =
    elim (lookup ℕ_discrete b m.blocks)
        as (λ o.
          lookup ℕ_discrete b m.blocks ≡ o
          → (k : Block) × (n : ℕ) × (o ≡ some k) × (k.owners ≡ suc n)) [
            | none ↦ λ e. absurd (ground (arith, v.counted b))
            | some k ↦ λ e. (k, k.owners - 1, refl, ground (arith, v.counted b))
          ]
      refl

-- A pointer of an object is shared: the block has an owner more.
pub share-IsShared :
    (p : SharedPtr) (m : Memory)
    → ((b : ℕ) → at b p ≤ holders b m)
    → IsShared none m
    → (m' : Memory) × (share p m ≡ some m') × IsShared p m' × (m'.objects ≡ m.objects)
unfolding share add_owner
share-IsShared none m held v = (m, refl, v, refl)
share-IsShared (some b) m held v =
    let (k, n, found, owned) = has_owner b none m v (omega (arith, held b, at_self b)) in
    (
      record m { blocks = put ℕ_discrete b (record k { owners = suc (suc n) }) m.blocks },
      ground (arith, found, owned),
      put-IsShared b k (suc (suc n)) none (some b) m.events m found (λ c. ground (arith, owned))
          (λ raw. ground (arith, owned)) v,
      refl,
    )

-- The pointer beside the objects is let go, and its block has an owner less.
drop_owner-IsShared :
    (b : ℕ) (k : Block) (n : ℕ) (m : Memory)
    → lookup ℕ_discrete b m.blocks ≡ some k
    → k.owners ≡ suc n
    → IsShared (some b) m
    → (m' : Memory) × (release (some b) m ≡ some m') × IsShared none m'
unfolding release drop_owner given ended
drop_owner-IsShared b k zero m found owned v = (
  record m {
    blocks = put ℕ_discrete b (record k { owners = 0 }) m.blocks;
    events = destroyed k.raw ∷ m.events;
  },
  ground (arith, found, owned),
  put-IsShared b k 0 (some b) none (destroyed k.raw ∷ m.events) m found (λ c. ground (arith, owned))
      (λ raw. ground (arith, owned)) v,
)
drop_owner-IsShared b k (suc n) m found owned v = (
  record m { blocks = put ℕ_discrete b (record k { owners = suc n }) m.blocks },
  ground (arith, found, owned),
  put-IsShared b k (suc n) (some b) none m.events m found (λ c. ground (arith, owned))
      (λ raw. ground (arith, owned)) v,
)

-- So is a pointer that may count in no block.
pub release-IsShared :
    (q : SharedPtr) (m : Memory)
    → IsShared q m
    → (m' : Memory) × (release q m ≡ some m') × IsShared none m'
unfolding release
release-IsShared none m v = (m, refl, v)
release-IsShared (some b) m v =
    let (k, n, found, owned) = has_owner b (some b) m v (omega (arith, at_self b)) in
    drop_owner-IsShared b k n m found owned v
