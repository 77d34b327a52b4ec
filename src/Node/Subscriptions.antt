-- ===== src/Node/Subscriptions.antt =====
-- The subscribers and publishers of node_impl.cpp.
use daylite.Prelude.{
  ℕ, ◌+◌, ◌%◌, ◌^◌, ◌==◌, ◌≡◌, List, [], ◌∷◌, ◌++◌, map, String, String-discrete, ℕ_discrete, ite,
  arith, count, count-append, if◌then◌else◌,
}
use daylite.Node.{
  Counts, get, Registry, erase_all, decrement_erased, unregister_subscriber, register_subscriber,
  unregister_publisher, register_publisher, decrement,
}
use daylite.Node.Counter.{get-increment, get-decrement}

pub count-erase_all :
    (a b : ℕ) (xs : List ℕ)
    → count ℕ_discrete b (erase_all a xs) ≡ (if a == b then 0 else count ℕ_discrete b xs)
unfolding erase_all count
count-erase_all a b [] = ground arith
count-erase_all a b (x ∷ xs) = ground (arith, count-erase_all a b xs)

count_single : (a b : ℕ) → count ℕ_discrete b (a ∷ []) ≡ (if a == b then 1 else 0)
unfolding count
count_single a b = ground arith

-- A pointer that is erased and put at the end is there once, and any other as often as before.
count-renewed :
    (a b : ℕ) (xs : List ℕ)
    → count ℕ_discrete b (erase_all a xs ++ a ∷ []) ≡ (if a == b then 1 else count ℕ_discrete b xs)
count-renewed a b xs = ground (
  arith,
  count-append ℕ_discrete b (erase_all a xs) (a ∷ []),
  count-erase_all a b xs,
  count_single a b,
)

module _ (topic_of : ℕ → String) where
  -- The active subscribers of a topic.
  unfoldable pub subscribers_on : String → List ℕ → ℕ
  unfolding count String-discrete
  subscribers_on t xs = count String-discrete t (map topic_of xs)

  -- Every counter is the number of active subscribers of its topic, modulo 2^32.
  abbrev pub IsCounted : Registry → Type 0
  IsCounted r =
      (t : String)
      → get t r.local_subscription_count ≡ subscribers_on t r.active_subscribers % 2 ^ 32

  get-decrement_erased :
      (a : ℕ) (t : String) (xs : List ℕ) (m : Counts) (x : ℕ)
      → get t m ≡ (x + subscribers_on t xs) % 2 ^ 32
      → get t (decrement_erased a (topic_of a) xs m)
        ≡ (x + subscribers_on t (erase_all a xs)) % 2 ^ 32
  unfolding decrement_erased erase_all subscribers_on count
  get-decrement_erased a t [] m x h = h
  get-decrement_erased a t (y ∷ xs) m x h = ground (
    arith,
    get-decrement (topic_of a) t m,
    get-decrement_erased a t xs m (x + 1),
    get-decrement_erased a t xs m x,
    get-decrement_erased a t xs (decrement (topic_of a) m) x,
  )

  pub unregister_subscriber-IsCounted :
      (a : ℕ) (r : Registry) → IsCounted r → IsCounted (unregister_subscriber topic_of a r)
  unfolding unregister_subscriber
  unregister_subscriber-IsCounted a r v t = omega (
    arith,
    v t,
    get-decrement_erased a t r.active_subscribers r.local_subscription_count 0 (omega (arith, v t)),
  )

  subscribers_on-append :
      (t : String) (xs : List ℕ) (a : ℕ)
      → subscribers_on t (xs ++ a ∷ [])
        ≡ subscribers_on t xs + ite (String-discrete (topic_of a) t) 1 0
  unfolding subscribers_on count
  subscribers_on-append t [] a = ground arith
  subscribers_on-append t (x ∷ xs) a = ground (arith, subscribers_on-append t xs a)

  -- Registering a subscriber, also one that is registered already, keeps the counters right, and
  -- leaves it in the list exactly once and the others as often as they were.
  pub register_subscriber-IsCounted :
      (a : ℕ) (r : Registry)
      → IsCounted r
      → IsCounted (register_subscriber topic_of a r)
        × ((b : ℕ)
            → count ℕ_discrete b (register_subscriber topic_of a r).active_subscribers
              ≡ (if a == b then 1 else count ℕ_discrete b r.active_subscribers))
  unfolding register_subscriber
  register_subscriber-IsCounted a r v = (
    λ t. ground (
      arith,
      unregister_subscriber-IsCounted a r v t,
      subscribers_on-append t (unregister_subscriber topic_of a r).active_subscribers a,
      get-increment (topic_of a) t (unregister_subscriber topic_of a r).local_subscription_count,
    ),
    λ b. count-renewed a b r.active_subscribers,
  )

-- Registering a publisher leaves it in the list exactly once and the others as often as they were, and
-- unregistering it then takes it out and keeps the others.
pub register_publisher-count :
    (a b : ℕ) (r : Registry)
    → (count ℕ_discrete b (register_publisher a r).active_publishers
        ≡ (if a == b then 1 else count ℕ_discrete b r.active_publishers))
      × (count ℕ_discrete b (unregister_publisher a (register_publisher a r)).active_publishers
          ≡ (if a == b then 0 else count ℕ_discrete b r.active_publishers))
unfolding register_publisher unregister_publisher
register_publisher-count a b r = ground (
  arith,
  count-renewed a b r.active_publishers,
  count-erase_all a b (erase_all a r.active_publishers ++ a ∷ []),
)
