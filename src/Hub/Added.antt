-- ===== src/Hub/Added.antt =====
-- The remotes, subscribers and publishers that a node adds, and the mailbox that its constructor makes.
use daylite.Prelude.{ℕ, ◌≡◌, refl, ap, ◌∙◌, none, some, [], ◌∷◌, String, ℕ_discrete, arith}
use daylite.Prelude.Assoc.{lookup, lookup-put_self}
use daylite.Topic.{Topic, any, internal, internal-any}
use daylite.Packet.{NetworkTime, Bson}
use daylite.Thread.{fresh, add_socket}
use daylite.Thread.Sockets.{add_socket-watched}
use daylite.Mail.{Mailman, id32, boxes, enter}
use daylite.Mail.Table.{boxes-enter}
use daylite.Remote.{Mode}
use daylite.Endpoint.{Subscriber}
use daylite.Hub.{InfoCode, Role, remote, control, subscribes, publishes, Post, Roles, Hub}
use daylite.Hub.Whole.{NodeImpl, constructed}
use daylite.Hub.Steps.{IsWatched}
use daylite.Hub.Wired.{IsWired}
use daylite.Hub.Attached.{enter-IsWired}

module _ (b : Bson) (code : InfoCode b.Doc) (own : ℕ) (now : NetworkTime) (roles : Roles) (box : ℕ)
    (m : Mailman) (h : Hub b.Doc) (v : IsWired b code own now roles m h)
    (new : lookup ℕ_discrete box roles ≡ none) where
  abbrev pub remote_post : ℕ → Mode → Post
  remote_post link mode = record { topic = any; role = remote link mode }

  -- A remote on a link that the thread did not watch yet.
  pub attach-IsWired :
      (link : ℕ) (mode : Mode) (h' : Hub b.Doc)
      → lookup ℕ_discrete link h.buffers ≡ none
      → h'.buffers ≡ (add_socket h.buffers link).1
      → IsWired b code own now ((box, remote_post link mode) ∷ roles) (enter m any box) h'
        × (lookup ℕ_discrete link h'.buffers ≡ some fresh)
  unfolding add_socket
  attach-IsWired link mode h' unwatched same = (
    enter-IsWired b code own now roles box (remote_post link mode) new m h v
        (λ l m' e. ground (arith, e, unwatched)) h' refl (λ c other e f g. cc) (fresh, new_buffer)
        still,
    new_buffer,
  )
    where
      new_buffer : lookup ℕ_discrete link h'.buffers ≡ some fresh
      new_buffer = ground (arith, same, unwatched, lookup-put_self ℕ_discrete link fresh h.buffers)

      still :
          (r : Role)
          → IsWatched b code own now roles r h.buffers
          → IsWatched b code own now ((box, remote_post link mode) ∷ roles) r h'.buffers
      still (remote l m') (q, f) =
          (q, ap (lookup ℕ_discrete l) same ∙ add_socket-watched h.buffers link l q f)
      still control w = tt
      still (subscribes s) w = tt
      still publishes w = tt

  still-with :
      (post : Post) (r : Role)
      → IsWatched b code own now roles r h.buffers
      → IsWatched b code own now ((box, post) ∷ roles) r h.buffers
  still-with post (remote l m') w = w
  still-with post control w = tt
  still-with post (subscribes s) w = tt
  still-with post publishes w = tt

  -- A subscriber's mailbox.
  pub subscribe-IsWired :
      (topic : Topic) (s : Subscriber)
      → let post : Post = record { topic = topic; role = subscribes s } in
        IsWired b code own now ((box, post) ∷ roles) (enter m topic box) h
  subscribe-IsWired topic s =
      let post : Post = record { topic = topic; role = subscribes s } in
      enter-IsWired b code own now roles box post new m h v (λ l mode e. absurd (ground (arith, e)))
        h tt (λ c other e f g. cc) tt (still-with post)

  -- A publisher's mailbox.
  pub publish-IsWired :
      (topic : Topic)
      → let post : Post = record { topic = topic; role = publishes } in
        IsWired b code own now ((box, post) ∷ roles) (enter m topic box) h
  publish-IsWired topic =
      let post : Post = record { topic = topic; role = publishes } in
      enter-IsWired b code own now roles box post new m h v (λ l mode e. absurd (ground (arith, e)))
        h tt (λ c other e f g. cc) tt (still-with post)

-- A node whose constructor has run.
module _ (b : Bson) (code : InfoCode b.Doc) (own : ℕ) (now : NetworkTime) (name : String) (me : ℕ)
    (start : NetworkTime) where
  open b use {Doc}

  pub constructed-entry :
      lookup ℕ_discrete (id32 me) (boxes (constructed {Doc = Doc} name me start).mailman internal)
      ≡ some me
  unfolding constructed
  constructed-entry = ground (
    arith,
    boxes-enter [] internal internal me,
    lookup-put_self ℕ_discrete (id32 me) me (boxes [] internal),
  )

  empty-IsWired : (h : Hub Doc) → IsWired b code own now [] [] h
  unfolding lookup boxes
  empty-IsWired h = record {
    keyed = λ t. tt;
    placed = λ t. tt;
    alone = λ a link mode post e. cc;
    own_alone = λ a post e. cc;
    watched = λ a post e. cc;
  }

  nobody : (a : ℕ) {post : Post} → lookup ℕ_discrete a [] ≡ some post → ⊥
  unfolding lookup
  nobody a e = cc

  pub constructed-IsWired :
      let n : NodeImpl Doc = constructed name me start in
      IsWired b code own now n.roles n.mailman n.hub
  unfolding constructed lookup
  constructed-IsWired =
      let h : Hub Doc = (constructed {Doc = Doc} name me start).hub in
      enter-IsWired b code own now [] me (record { topic = internal; role = control }) refl [] h
        (empty-IsWired h) (λ l mode e. absurd (ground (arith, e))) h internal-any
        (λ c other e f g. nobody c e) tt no_one
    where
      no_one :
          (r : Role)
          → IsWatched b code own now [] r (constructed {Doc = Doc} name me start).hub.buffers
          → IsWatched b code own now
              ((me, record { topic = internal; role = control }) ∷ [])
              r
              (constructed {Doc = Doc} name me start).hub.buffers
      no_one (remote l mode) w = w
      no_one control w = tt
      no_one (subscribes s) w = tt
      no_one publishes w = tt
