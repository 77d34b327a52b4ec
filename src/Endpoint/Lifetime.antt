-- ===== src/Endpoint/Lifetime.antt =====
-- What the life of a subscriber or publisher leaves behind in its node.
use daylite.Prelude.{
  [], ◌∷◌, length, ℕ, ◌==◌, ◌≡◌, refl, true, false, none, some, String, List, if◌then◌else◌, count,
  ℕ_discrete, arith,
}
use daylite.Prelude.Assoc.{lookup}
use daylite.Mail.{clear, id32, boxes}
use daylite.Mail.Table.{leave-clear, leave-enter}
use daylite.Node.{register_subscriber, unregister_subscriber, register_publisher}
use daylite.Node.Subscriptions.{
  IsCounted, register_subscriber-IsCounted, unregister_subscriber-IsCounted,
  register_publisher-count, count-erase_all,
}
use daylite.Endpoint.{
  husk_publishers, stop_publishers, Home, open_subscriber, husk_subscriber, open_publisher,
  close_publisher, husk_publisher,
}

-- A subscriber that is made and destroyed again, where its mailbox's id was free, leaves the mailman's
-- entries as they were and the other subscribers in the registry as often as they were, is itself out
-- of it, and leaves the counters right.
pub husk_subscriber-open_subscriber :
    (topic_of : ℕ → String) (a box : ℕ) (h : Home)
    → IsCounted topic_of h.registry
    → lookup ℕ_discrete (id32 box) (boxes h.mailman (topic_of a)) ≡ none
    → (h' : Home) × (husk_subscriber topic_of a box false (open_subscriber topic_of a box h)
        ≡ some h')
      × IsCounted topic_of h'.registry
      × ((u : String) → boxes h'.mailman u ≡ boxes h.mailman u)
      × ((b : ℕ)
          → count ℕ_discrete b h'.registry.active_subscribers
            ≡ (if a == b then 0 else count ℕ_discrete b h.registry.active_subscribers))
unfolding husk_subscriber open_subscriber
husk_subscriber-open_subscriber topic_of a box h v free =
    let (m, left, same) = leave-enter h.mailman (topic_of a) box free in
    let opened = register_subscriber-IsCounted topic_of a h.registry v in
    (
      record {
        registry = unregister_subscriber topic_of a (register_subscriber topic_of a h.registry);
        mailman = m;
      },
      rw left,
      unregister_subscriber-IsCounted topic_of a (register_subscriber topic_of a h.registry)
          opened.0,
      same,
      λ b. ground (arith, gone b, opened.1 b),
    )
  where
    gone :
        (b : ℕ)
        → count ℕ_discrete b
            (unregister_subscriber topic_of a
              (register_subscriber topic_of a h.registry)).active_subscribers
          ≡ (if a == b
              then 0
              else count ℕ_discrete b
                  (register_subscriber topic_of a h.registry).active_subscribers)
    gone b =
        unfold unregister_subscriber in
        count-erase_all a b (register_subscriber topic_of a h.registry).active_subscribers

-- A publisher that was made, and whose node turned it into a husk by `set_husk`, is still in the node's
-- registry after it was destroyed, and its mailbox is not in the mailman.
pub husk_publisher-open_publisher :
    (topic : String) (a box : ℕ) (h : Home)
    → lookup ℕ_discrete (id32 box) (boxes h.mailman topic) ≡ none
    → (h' : Home) × (husk_publisher topic a box (open_publisher topic a box h) ≡ some h')
      × (close_publisher topic a box true h' ≡ some h')
      × ((u : String) → boxes h'.mailman u ≡ boxes h.mailman u)
      × (count ℕ_discrete a h'.registry.active_publishers ≡ 1)
unfolding husk_publisher open_publisher close_publisher
husk_publisher-open_publisher topic a box h free =
    let (m, left, same) = leave-enter h.mailman topic box free in
    (
      record { registry = register_publisher a h.registry; mailman = m },
      rw left,
      refl,
      same,
      ground (arith, register_publisher-count a a h.registry),
    )

-- A node with a publisher that is stopped follows a null pointer: the mailman is cleared before the
-- publisher takes its mailbox out of it. A node with none is stopped.
pub stop_publishers_lem :
    (ps : List (String × ℕ × ℕ)) (h : Home)
    → stop_publishers ps h
      ≡ (if length ps == 0 then some (record h { mailman = clear h.mailman }) else none)
unfolding stop_publishers
stop_publishers_lem [] h = refl
stop_publishers_lem ((topic, a, box) ∷ ps) h = ground (arith, stuck)
  where
    stuck : husk_publishers ((topic, a, box) ∷ ps) (record h { mailman = clear h.mailman }) ≡ none
    stuck =
        unfold husk_publishers husk_publisher in
        rw (leave-clear h.mailman topic box, husk_publishers, husk_publisher) refl
