-- ===== src/Hub/Heard.antt =====
-- What the callbacks of a node's subscribers and of its own mailbox get of a packet that is placed.
use daylite.Prelude.{
  ℕ, ◌≡◌, ◌≢◌, refl, some, [], ◌∷◌, ◌++◌, ℕ_discrete, arith, count, ◌==◌, ◌||◌, String-discrete,
  if◌then◌else◌,
}
use daylite.Prelude.Assoc.{lookup}
use daylite.Outcome.{done}
use daylite.Topic.{Topic, any, topic_eq}
use daylite.Packet.{NetworkTime, Packet, Bson}
use daylite.Mail.{Mailman, id32, boxes, recipients}
use daylite.Mail.Recipients.{holds, count-recipients}
use daylite.Node.Control.{control_mail}
use daylite.Endpoint.{Subscriber, received}
use daylite.Hub.{InfoCode, control, subscribes, Post, Roles, Hub, relay}
use daylite.Hub.Steps.{steps, steps-IsWatched}
use daylite.Hub.Shares.{heard, heeds, steps-heeds, steps-heard}
use daylite.Hub.Wired.{IsWired, recipients-AreReady, holds-foreign}
use daylite.Hub.Relay.{relay_lem, relayed}

module _ (b : Bson) (code : InfoCode b.Doc) (own : ℕ) (now : NetworkTime) (roles : Roles) where
  open b use {Doc}

  -- A registered mailbox stands under its own topic only.
  holds-post :
      (a : ℕ) (post : Post) (u : Topic) (m : Mailman) (h : Hub Doc)
      → IsWired b code own now roles m h
      → lookup ℕ_discrete a roles ≡ some post
      → lookup ℕ_discrete (id32 a) (boxes m post.topic) ≡ some a
      → holds (boxes m u) a ≡ (if topic_eq post.topic u then 1 else 0)
  unfolding holds topic_eq
  holds-post a post u m h v at there = elim (String-discrete post.topic u) [
    | yes same ↦ ground (arith, same, there)
    | no differ ↦ ground (
      arith,
      differ,
      holds-foreign b code own now roles u a post (boxes m u) (v.placed u) at differ,
    )
  ]

  -- It is handed a packet once if the packet's topic is its own or its own is any, unless it has the
  -- sender's id.
  count-post :
      (a : ℕ) (post : Post) (sender : ℕ) (topic : Topic) (m : Mailman) (h : Hub Doc)
      → IsWired b code own now roles m h
      → topic ≢ any
      → lookup ℕ_discrete a roles ≡ some post
      → lookup ℕ_discrete (id32 a) (boxes m post.topic) ≡ some a
      → count ℕ_discrete a (recipients m sender topic) ≡ (
          if id32 sender == id32 a
          then 0
          else if topic_eq post.topic topic || topic_eq post.topic any
          then 1
          else 0)
  unfolding topic_eq
  count-post a post sender topic m h v ne at there = ground (
    arith,
    count-recipients m sender a topic v.keyed,
    holds-post a post topic m h v at there,
    holds-post a post any m h v at there,
  )

  -- Where the mailboxes are wired and a packet of a topic other than any is placed, no assertion fails;
  -- the callback of a registered subscriber is given the packet once if the packet's topic is its own or
  -- its own is any, unless its mailbox has the sender's id, and else not at all.
  pub relay-heard :
      (m : Mailman) (sender : ℕ) (p : Packet Doc) (h : Hub Doc) (a : ℕ) (s : Subscriber)
      (topic : Topic)
      → IsWired b code own now roles m h
      → p.meta.topic ≢ any
      → lookup ℕ_discrete a roles ≡ some (record { topic = topic; role = subscribes s })
      → lookup ℕ_discrete (id32 a) (boxes m topic) ≡ some a
      → (h' : Hub Doc) × (relay b code own now roles m sender p h ≡ some (h', done))
        × (heard b code own now roles a h'.journal
            ≡ heard b code own now roles a h.journal
              ++ (if id32 sender == id32 a
                  then []
                  else if topic_eq topic p.meta.topic || topic_eq topic any
                  then received b s p ∷ []
                  else []))
  relay-heard m sender p h a s topic v ne at there =
      let post : Post = record { topic = topic; role = subscribes s } in
      (
        steps b code own now roles (recipients m sender p.meta.topic) p h,
        relay_lem b code own now roles m sender p h v,
        ground (
          arith,
          steps-heard b code own now roles a s topic (recipients m sender p.meta.topic) p h at,
          count-post a post sender p.meta.topic m h v ne at there,
        ),
      )

  pub relayed-control :
      (m : Mailman) (sender : ℕ) (p : Packet Doc) (h : Hub Doc) (a : ℕ) (topic : Topic)
      → IsWired b code own now roles m h
      → p.meta.topic ≢ any
      → topic ≢ any
      → lookup ℕ_discrete a roles ≡ some (record { topic = topic; role = control })
      → lookup ℕ_discrete (id32 a) (boxes m topic) ≡ some a
      → (relayed b code own now roles m sender p h).control ≡ (
          if id32 sender == id32 a
          then h.control
          else if topic_eq topic p.meta.topic
          then control_mail own code.blank now p.meta.stamp (code.unbind p.msg) h.control
          else h.control)
  unfolding heeds topic_eq
  relayed-control m sender p h a topic v ne own_topic at there =
      let post : Post = record { topic = topic; role = control } in
      ground (
        arith,
        own_topic,
        steps-heeds b code own now roles a topic (recipients m sender p.meta.topic) p h at
            (v.own_alone a post at refl),
        count-post a post sender p.meta.topic m h v ne at there,
      )

  -- What the node knows, and its clock, change exactly by a packet of the topic of its own mailbox that
  -- another mailbox places: that mailbox takes it once.
  pub relay-control :
      (m : Mailman) (sender : ℕ) (p : Packet Doc) (h : Hub Doc) (a : ℕ) (topic : Topic)
      → IsWired b code own now roles m h
      → p.meta.topic ≢ any
      → topic ≢ any
      → lookup ℕ_discrete a roles ≡ some (record { topic = topic; role = control })
      → lookup ℕ_discrete (id32 a) (boxes m topic) ≡ some a
      → (h' : Hub Doc) × (relay b code own now roles m sender p h ≡ some (h', done))
        × (h'.control ≡ (
            if id32 sender == id32 a
            then h.control
            else if topic_eq topic p.meta.topic
            then control_mail own code.blank now p.meta.stamp (code.unbind p.msg) h.control
            else h.control))
  relay-control m sender p h a topic v ne own_topic at there = (
    relayed b code own now roles m sender p h,
    relay_lem b code own now roles m sender p h v,
    relayed-control m sender p h a topic v ne own_topic at there,
  )

  -- The mailboxes stay wired.
  pub relayed-IsWired :
      (m : Mailman) (sender : ℕ) (p : Packet Doc) (h : Hub Doc)
      → IsWired b code own now roles m h
      → IsWired b code own now roles m (relayed b code own now roles m sender p h)
  relayed-IsWired m sender p h v = record {
    keyed = v.keyed;
    placed = v.placed;
    alone = v.alone;
    own_alone = v.own_alone;
    watched = λ a post e.
        steps-IsWatched b code own now roles post.role (recipients m sender p.meta.topic) p h
          (recipients-AreReady b code own now roles m h v sender p.meta.topic) (v.watched a post e);
  }
