-- ===== src/Node/Tally.antt =====
-- The counts of subscriptions and splats, against the infos that they are counts of.
use daylite.Prelude.{
  ℕ, ◌-◌, ◌%◌, ◌^◌, ◌==◌, ◌≡◌, refl, none, some, List, [], ◌∷◌, String, String-discrete, ℕ_discrete,
  arith, count, Option-cases, inl, inr, Bool-cases,
}
use daylite.Prelude.Assoc.{lookup, put, total, total-put_new, total-put_old, le-total}
use daylite.Node.{
  NodeInfo, Counts, get, increment_all, decrement_all, Known, splat_topics, tally, untally,
  receive_info, dead, bury, bury_all, subscriber_count,
}
use daylite.Node.Counter.{get-increment_all, get-decrement_all}

-- How often a node's info lists a topic.
pub listens : String → NodeInfo → ℕ
unfolding count String-discrete
listens t info = count String-discrete t info.in_topics

pub splats_on : String → NodeInfo → ℕ
unfolding count String-discrete
splats_on t info = count String-discrete t (splat_topics info.splats)

-- Every counter is the sum over the latest infos, modulo 2^32.
pub record IsTallied (k : Known) : Type 0 where
  pub subscriptions :
      (t : String)
      → get t k.subscription_count ≡ total ℕ_discrete (listens t) k.latest_info % 2 ^ 32
  pub splats :
      (t : String) → get t k.splat_count ≡ total ℕ_discrete (splats_on t) k.latest_info % 2 ^ 32

module _ (topics : NodeInfo → List String) (t : String) where
  mentions : NodeInfo → ℕ
  unfolding count String-discrete
  mentions info = count String-discrete t (topics info)

  -- One counter where an info replaces an old one, and where it is new.
  replaced :
      (m : Counts) (infos : List (ℕ × NodeInfo)) (id : ℕ) (old new : NodeInfo)
      → lookup ℕ_discrete id infos ≡ some old
      → get t m ≡ total ℕ_discrete mentions infos % 2 ^ 32
      → get t (increment_all (topics new) (decrement_all (topics old) m))
        ≡ total ℕ_discrete mentions (put ℕ_discrete id new infos) % 2 ^ 32
  unfolding mentions
  replaced m infos id old new e h = omega (
    arith,
    get-increment_all (topics new) t (decrement_all (topics old) m) rest (
        get-decrement_all (topics old) t m rest
          (omega (arith, h, le-total ℕ_discrete mentions id old infos e))),
    le-total ℕ_discrete mentions id old infos e,
    total-put_old ℕ_discrete mentions id new old infos e,
  )
    where
      rest : ℕ
      rest = total ℕ_discrete mentions infos - mentions old

  added :
      (m : Counts) (infos : List (ℕ × NodeInfo)) (id : ℕ) (new : NodeInfo)
      → lookup ℕ_discrete id infos ≡ none
      → get t m ≡ total ℕ_discrete mentions infos % 2 ^ 32
      → get t (increment_all (topics new) m)
        ≡ total ℕ_discrete mentions (put ℕ_discrete id new infos) % 2 ^ 32
  unfolding mentions
  added m infos id new e h = omega (
    arith,
    get-increment_all (topics new) t m (total ℕ_discrete mentions infos) h,
    total-put_new ℕ_discrete mentions id new infos e,
  )

-- A node's announcement keeps the counters in step, whether the node is new or known.
pub receive_info-IsTallied :
    (own : ℕ) (info : NodeInfo) (k : Known) → IsTallied k → IsTallied (receive_info own info k)
unfolding receive_info tally
receive_info-IsTallied own info k v = elim (Bool-cases (info.id == own)) [
  | inl mine ↦ rw (mine, receive_info) v
  | inr foreign ↦ elim (Option-cases (lookup ℕ_discrete info.id k.latest_info)) [
    | inl new ↦
        rw (foreign, new, receive_info)
          (record {
            subscriptions = λ t.
                unfold listens mentions in
                added (λ i. i.in_topics) t k.subscription_count k.latest_info info.id info new
                  (v.subscriptions t);
            splats = λ t.
                unfold splats_on mentions in
                added (λ i. splat_topics i.splats) t k.splat_count k.latest_info info.id info new
                  (v.splats t);
          })
    | inr (old, known) ↦
        rw (foreign, known, receive_info)
          (record {
            subscriptions = λ t.
                unfold listens mentions in
                replaced (λ i. i.in_topics) t k.subscription_count k.latest_info info.id old info
                  known (v.subscriptions t);
            splats = λ t.
                unfold splats_on mentions in
                replaced (λ i. splat_topics i.splats) t k.splat_count k.latest_info info.id old info
                  known (v.splats t);
          })
  ]
]

-- So does the loss of a node: what it subscribed to is taken back once.
pub bury-IsTallied : (id : ℕ) (k : Known) → IsTallied k → IsTallied (bury id k)
unfolding bury untally
bury-IsTallied id k v = elim (Option-cases (lookup ℕ_discrete id k.latest_info)) [
  | inl unknown ↦ rw (unknown, bury) v
  | inr (info, known) ↦
      rw (known, bury)
        (record {
          subscriptions = λ t.
              unfold listens mentions increment_all in
              replaced (λ i. i.in_topics) t k.subscription_count k.latest_info id info (dead info)
                known (v.subscriptions t);
          splats = λ t.
              unfold splats_on mentions increment_all in
              replaced (λ i. splat_topics i.splats) t k.splat_count k.latest_info id info
                (dead info) known (v.splats t);
        })
]

pub bury_all-IsTallied : (ids : List ℕ) (k : Known) → IsTallied k → IsTallied (bury_all ids k)
unfolding bury_all
bury_all-IsTallied [] k v = v
bury_all-IsTallied (id ∷ ids) k v = bury_all-IsTallied ids (bury id k) (bury-IsTallied id k v)

-- What a node hears of the others: an announcement, or that a remote with these ids is gone.
pub data Event : Type 0 where
  announces : NodeInfo → Event
  disconnects : List ℕ → Event

unfoldable pub hear : ℕ → Known → List Event → Known
hear own k [] = k
hear own k (announces info ∷ events) = hear own (receive_info own info k) events
hear own k (disconnects ids ∷ events) = hear own (bury_all ids k) events

abbrev pub nothing_known : Known
nothing_known = record { latest_info = []; subscription_count = []; splat_count = [] }

hear-IsTallied :
    (own : ℕ) (k : Known) (events : List Event) → IsTallied k → IsTallied (hear own k events)
unfolding hear
hear-IsTallied own k [] v = v
hear-IsTallied own k (announces info ∷ events) v =
    hear-IsTallied own (receive_info own info k) events (receive_info-IsTallied own info k v)
hear-IsTallied own k (disconnects ids ∷ events) v =
    hear-IsTallied own (bury_all ids k) events (bury_all-IsTallied ids k v)

pub nothing-IsTallied : IsTallied nothing_known
unfolding get total lookup
nothing-IsTallied = record { subscriptions = λ t. refl; splats = λ t. refl }

-- After any history from the start, a publisher's count of subscribers is the number of entries for
-- its topic in the latest infos of all nodes heard of, modulo 2^32.
pub subscriber_count-hear :
    (own : ℕ) (events : List Event) (t : String)
    → subscriber_count t (hear own nothing_known events)
      ≡ total ℕ_discrete (listens t) (hear own nothing_known events).latest_info % 2 ^ 32
unfolding subscriber_count
subscriber_count-hear own events t =
    (hear-IsTallied own nothing_known events nothing-IsTallied).subscriptions t
