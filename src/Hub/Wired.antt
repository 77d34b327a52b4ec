-- ===== src/Hub/Wired.antt =====
-- When the mailboxes of a node are wired to what they work on.
use daylite.Prelude.{
  ℕ, ◌≡◌, ◌≢◌, refl, some, List, [], ◌∷◌, ◌++◌, ℕ_discrete, arith, append-nil, Option-cases, inl,
  inr, ◌==◌, if◌then◌else◌, true, false,
}
use daylite.Prelude.Assoc.{lookup}
use daylite.Topic.{Topic, any}
use daylite.Packet.{NetworkTime, Bson}
use daylite.Thread.{SocketBuffer}
use daylite.Mail.{Mailman, id32, boxes, others, recipients}
use daylite.Mail.Recipients.{IsKeyed, holds}
use daylite.Remote.{Mode}
use daylite.Hub.{InfoCode, Role, remote, control, subscribes, publishes, Post, Roles, Hub}
use daylite.Hub.Steps.{IsWatched, AreReady}
use daylite.Hub.Shares.{IsAlone, AreBare, IsOwn}

module _ (b : Bson) (code : InfoCode b.Doc) (own : ℕ) (now : NetworkTime) (roles : Roles) where
  open b use {Doc}

  -- The mailboxes of remotes are for any topic, and the node's own for one topic.
  abbrev pub Fits : Topic → Role → Type 0
  Fits topic (remote link mode) = topic ≡ any
  Fits topic control = topic ≢ any
  Fits topic (subscribes s) = Unit {0}
  Fits topic publishes = Unit {0}

  abbrev pub ArePlaced : Topic → List (ℕ × ℕ) → Type 0
  ArePlaced topic [] = Unit {0}
  ArePlaced topic ((k, a) ∷ bs) =
      (role : Role) × (lookup ℕ_discrete a roles ≡ some (record { topic = topic; role = role }))
      × Fits topic role
      × ArePlaced topic bs

  -- Every registered mailbox is one of the node's and stands under its topic; every remote has a link
  -- of its own, which the thread watches.
  pub record IsWired (m : Mailman) (h : Hub Doc) : Type 0 where
    pub keyed : IsKeyed m
    pub placed : (topic : Topic) → ArePlaced topic (boxes m topic)
    pub alone :
        (a link : ℕ) (mode : Mode) (post : Post)
        → lookup ℕ_discrete a roles ≡ some post
        → post.role ≡ remote link mode
        → IsAlone b code own now roles a link
    pub own_alone :
        (a : ℕ) (post : Post)
        → lookup ℕ_discrete a roles ≡ some post
        → post.role ≡ control
        → IsOwn b code own now roles a
    pub watched :
        (a : ℕ) (post : Post)
        → lookup ℕ_discrete a roles ≡ some post
        → IsWatched b code own now roles post.role h.buffers

  -- Where every link that was watched still is, the mailboxes stay wired.
  pub rewatch-IsWired :
      (m : Mailman) (h h' : Hub Doc)
      → ((link : ℕ) (q : SocketBuffer Doc)
          → lookup ℕ_discrete link h.buffers ≡ some q
          → (q' : SocketBuffer Doc) × (lookup ℕ_discrete link h'.buffers ≡ some q'))
      → IsWired m h
      → IsWired m h'
  rewatch-IsWired m h h' still v = record {
    keyed = v.keyed;
    placed = v.placed;
    alone = v.alone;
    own_alone = v.own_alone;
    watched = λ a post e. by_role post.role (v.watched a post e);
  }
    where
      by_role :
          (r : Role)
          → IsWatched b code own now roles r h.buffers
          → IsWatched b code own now roles r h'.buffers
      by_role (remote link mode) (q, e) = still link q e
      by_role control w = tt
      by_role (subscribes s) w = tt
      by_role publishes w = tt

  module _ (m : Mailman) (h : Hub Doc) (v : IsWired m h) where
    others-AreReady :
        (sender : ℕ) (topic : Topic) (bs : List (ℕ × ℕ)) (rest : List ℕ)
        → ArePlaced topic bs
        → AreReady b code own now roles rest h.buffers
        → AreReady b code own now roles (others sender bs ++ rest) h.buffers
    unfolding others
    others-AreReady sender topic [] rest p r = r
    others-AreReady sender topic ((k, a) ∷ bs) rest (role, e, fits, p) r =
        let ready = others-AreReady sender topic bs rest p r in
        elim (k == sender)
          as (λ t.
            AreReady b code own now roles
              ((if t then others sender bs else a ∷ others sender bs) ++ rest) h.buffers) [
                | true ↦ ready
                | false ↦ (
                  record { topic = topic; role = role },
                  e,
                  v.watched a (record { topic = topic; role = role }) e,
                  ready,
                )
              ]

    pub recipients-AreReady :
        (sender : ℕ) (topic : Topic)
        → AreReady b code own now roles (recipients m sender topic) h.buffers
    unfolding recipients
    recipients-AreReady sender topic =
        others-AreReady (id32 sender) topic (boxes m topic) (others (id32 sender) (boxes m any))
          (v.placed topic)
          (rw (← append-nil (others (id32 sender) (boxes m any)))
            (others-AreReady (id32 sender) any (boxes m any) [] (v.placed any) tt))

  pub others-AreBare :
      (sender : ℕ) (bs : List (ℕ × ℕ))
      → ArePlaced any bs
      → AreBare b code own now roles (others sender bs)
  unfolding others
  others-AreBare sender [] p = tt
  others-AreBare sender ((k, a) ∷ bs) (role, e, fits, p) =
      let bare = others-AreBare sender bs p in
      elim (k == sender)
        as (λ t.
          AreBare b code own now roles (if t then others sender bs else a ∷ others sender bs)) [
            | true ↦ bare
            | false ↦ (λ post f c. unfit role fits (ground (arith, e, f, c)), bare)
          ]
    where
      unfit : (role : Role) → Fits any role → role ≡ control → ⊥
      unfit (remote link mode) fits c = cc
      unfit control fits c = fits refl
      unfit (subscribes s) fits c = cc
      unfit publishes fits c = cc

  lookup-ArePlaced :
      (topic : Topic) (k a : ℕ) (bs : List (ℕ × ℕ))
      → ArePlaced topic bs
      → lookup ℕ_discrete k bs ≡ some a
      → (role : Role) × (lookup ℕ_discrete a roles ≡ some (record { topic = topic; role = role }))
  unfolding lookup
  lookup-ArePlaced topic k a [] p e = cc
  lookup-ArePlaced topic k a ((j, c) ∷ bs) (role, f, fits, p) e = elim (ℕ_discrete j k) [
    | yes same ↦ (role, ground (arith, f))
    | no differ ↦ lookup-ArePlaced topic k a bs p (ground arith)
  ]

  -- A mailbox does not stand under a topic that is not its own.
  pub holds-foreign :
      (topic : Topic) (a : ℕ) (post : Post) (bs : List (ℕ × ℕ))
      → ArePlaced topic bs
      → lookup ℕ_discrete a roles ≡ some post
      → post.topic ≢ topic
      → holds bs a ≡ 0
  unfolding holds
  holds-foreign topic a post bs p e ne = elim (Option-cases (lookup ℕ_discrete (id32 a) bs)) [
    | inl n ↦ ground (arith, n)
    | inr (c, f) ↦ elim (ℕ_discrete c a) [
      | yes same ↦
          let (role, g) = lookup-ArePlaced topic (id32 a) c bs p f in
          absurd (ne (ground (arith, same, e, g)))
      | no differ ↦ ground (arith, f, differ)
    ]
  ]

-- It does not matter what the time is.
module _ (b : Bson) (code : InfoCode b.Doc) (own : ℕ) (now later : NetworkTime)
    (roles : Roles) where
  open b use {Doc}

  later-Fits :
      (topic : Topic) (role : Role)
      → Fits b code own now roles topic role
      → Fits b code own later roles topic role
  later-Fits topic (remote link mode) f = f
  later-Fits topic control f = f
  later-Fits topic (subscribes s) f = tt
  later-Fits topic publishes f = tt

  later-ArePlaced :
      (topic : Topic) (bs : List (ℕ × ℕ))
      → ArePlaced b code own now roles topic bs
      → ArePlaced b code own later roles topic bs
  later-ArePlaced topic [] p = tt
  later-ArePlaced topic ((k, a) ∷ bs) (role, e, fits, p) =
      (role, e, later-Fits topic role fits, later-ArePlaced topic bs p)

  pub later-IsWired :
      (m : Mailman) (h : Hub Doc)
      → IsWired b code own now roles m h
      → IsWired b code own later roles m h
  later-IsWired m h v = record {
    keyed = v.keyed;
    placed = λ topic. later-ArePlaced topic (boxes m topic) (v.placed topic);
    alone = v.alone;
    own_alone = v.own_alone;
    watched = λ a post e. by_role post.role (v.watched a post e);
  }
    where
      by_role :
          (r : Role)
          → IsWatched b code own now roles r h.buffers
          → IsWatched b code own later roles r h.buffers
      by_role (remote link mode) w = w
      by_role control w = tt
      by_role (subscribes s) w = tt
      by_role publishes w = tt
