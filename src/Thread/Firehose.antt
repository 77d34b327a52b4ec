-- ===== src/Thread/Firehose.antt =====
-- The firehose sets of a `tcp_thread::buffer`: which topics have a droppable packet queued.
use daylite.Prelude.{
  ℕ, ◌+◌, ◌≡◌, refl, true, false, List, [], ◌∷◌, ◌++◌, String, String-discrete, ite, if◌then◌else◌,
  arith, count, count-append, Bool-cases, inl, inr,
}
use daylite.Packet.{Packet}
use daylite.Thread.{contains, erase, SocketBuffer, fresh, pop_in, push_out, push_in, flush}

contains-erase :
    (x t : String) (s : List String)
    → contains t (erase x s) ≡ ite (String-discrete x t) false (contains t s)
unfolding contains erase
contains-erase x t [] = ground arith
contains-erase x t (y ∷ s) = ground (arith, contains-erase x t s)

module _ {Doc : Type 0} where
  -- The topics of the droppable packets of a queue, in order.
  pub droppable_topics : List (Packet Doc) → List String
  droppable_topics [] = []
  droppable_topics (p ∷ ps) =
      if p.meta.droppable then p.meta.topic ∷ droppable_topics ps else droppable_topics ps

  droppable_topics-append :
      (ps : List (Packet Doc)) (p : Packet Doc)
      → droppable_topics (ps ++ p ∷ [])
        ≡ droppable_topics ps ++ (if p.meta.droppable then p.meta.topic ∷ [] else [])
  unfolding droppable_topics
  droppable_topics-append [] p = ground arith
  droppable_topics-append (x ∷ ps) p = ground (arith, droppable_topics-append ps p)

  pub droppable_count : String → List (Packet Doc) → ℕ
  unfolding droppable_topics count String-discrete
  droppable_count t ps = count String-discrete t (droppable_topics ps)

  -- The set holds exactly the topics that have a droppable packet in the queue, and such a topic has
  -- one only.
  abbrev pub IsThrottled : List (Packet Doc) → List String → Type 0
  IsThrottled ps s = (t : String) → droppable_count t ps ≡ (if contains t s then 1 else 0)

  pub record IsSound (q : SocketBuffer Doc) : Type 0 where
    pub inward : IsThrottled q.inbox q.in_firehose
    pub outward : IsThrottled q.outbox q.out_firehose

  droppable_count-append :
      (t : String) (ps : List (Packet Doc)) (p : Packet Doc)
      → droppable_count t (ps ++ p ∷ [])
        ≡ droppable_count t ps
          + (if p.meta.droppable then ite (String-discrete p.meta.topic t) 1 0 else 0)
  unfolding droppable_count
  droppable_count-append t ps p =
      rw (droppable_topics-append ps p, count-append String-discrete t (droppable_topics ps))
        (unfold count in ground arith)

  -- What joining a queue does where the topic's slot is free.
  joins :
      (ps : List (Packet Doc)) (s : List String) (p : Packet Doc)
      → p.meta.droppable ≡ true
      → contains p.meta.topic s ≡ false
      → IsThrottled ps s
      → IsThrottled (ps ++ p ∷ []) (p.meta.topic ∷ s)
  unfolding contains
  joins ps s p d c h t = ground (arith, h t, droppable_count-append t ps p)

  keeps_reliable :
      (ps : List (Packet Doc)) (s : List String) (p : Packet Doc)
      → p.meta.droppable ≡ false
      → IsThrottled ps s
      → IsThrottled (ps ++ p ∷ []) s
  keeps_reliable ps s p d h t = ground (arith, h t, droppable_count-append t ps p)

  leaves :
      (p : Packet Doc) (ps : List (Packet Doc)) (s : List String)
      → IsThrottled (p ∷ ps) s
      → IsThrottled ps (if p.meta.droppable then erase p.meta.topic s else s)
  unfolding droppable_count droppable_topics count
  leaves p ps s h t = ground (arith, h t, contains-erase p.meta.topic t s)

  pub fresh-IsSound : IsSound fresh
  unfolding droppable_count contains
  fresh-IsSound = record { inward = λ t. refl; outward = λ t. refl }

  pub push_out-IsSound :
      (q : SocketBuffer Doc) (p : Packet Doc) → IsSound q → IsSound (push_out q p)
  unfolding push_out
  push_out-IsSound q p v = elim (Bool-cases p.meta.droppable) [
    | inr d ↦ simp d (record {
      inward = v.inward;
      outward = keeps_reliable q.outbox q.out_firehose p d v.outward;
    })
    | inl d ↦ elim (Bool-cases (contains p.meta.topic q.out_firehose)) [
      | inl c ↦ simp (d, c) (record { inward = v.inward; outward = v.outward })
      | inr c ↦
          simp (d, c)
            (record { inward = v.inward; outward = joins q.outbox q.out_firehose p d c v.outward })
    ]
  ]

  pub push_in-IsSound : (q : SocketBuffer Doc) (p : Packet Doc) → IsSound q → IsSound (push_in q p)
  unfolding push_in
  push_in-IsSound q p v = elim (Bool-cases p.meta.droppable) [
    | inr d ↦
        simp d (record {
          outward = v.outward;
          inward = keeps_reliable q.inbox q.in_firehose p d v.inward;
        })
    | inl d ↦ elim (Bool-cases (contains p.meta.topic q.in_firehose)) [
      | inl c ↦ simp (d, c) v
      | inr c ↦
          simp (d, c)
            (record { outward = v.outward; inward = joins q.inbox q.in_firehose p d c v.inward })
    ]
  ]

  pub flush-IsSound : (q : SocketBuffer Doc) → IsSound q → IsSound (flush q).1
  unfolding flush droppable_count contains
  flush-IsSound q v = record { inward = v.inward; outward = λ t. refl }

  pub pop_in-IsSound : (q : SocketBuffer Doc) → IsSound q → IsSound (pop_in q).1
  unfolding pop_in
  pop_in-IsSound q v = go q.inbox v.inward
    where
      go :
          (ps : List (Packet Doc))
          → IsThrottled ps q.in_firehose
          → IsSound (pop_in (record q { inbox = ps })).1
      go [] h = record { inward = h; outward = v.outward }
      go (p ∷ ps) h = record { inward = leaves p ps q.in_firehose h; outward = v.outward }
