-- ===== src/Hub/Steps.antt =====
-- What the callbacks of a node's mailboxes do, one by one and in a row.
use daylite.Prelude.{
  ℕ, ◌≡◌, ◌≢◌, refl, sym, ap, ◌∙◌, none, some, List, [], ◌∷◌, ◌++◌, ℕ_discrete, arith, Option-cases,
  inl, inr,
}
use daylite.Prelude.Assoc.{lookup}
use daylite.Outcome.{done}
use daylite.Packet.{NetworkTime, Packet, Bson}
use daylite.Thread.{SocketBuffer, Buffers, push_out}
use daylite.Thread.Sockets.{send-watched, send-other}
use daylite.Mail as Mail
use daylite.Node.{Counts}
use daylite.Remote as Remote
use daylite.Remote.{Mode}
use daylite.Hub.{
  InfoCode, Role, remote, control, subscribes, publishes, Post, Roles, Hub, remote_mail, own_mail,
  subscriber_mail, incoming_mail, mailbox_of, boxes_of,
}

module _ (b : Bson) (code : InfoCode b.Doc) (own : ℕ) (now : NetworkTime) (roles : Roles) where
  open b use {Doc}

  -- The remote's link has a buffer in the thread.
  abbrev pub IsWatched : Role → Buffers Doc → Type 0
  IsWatched (remote link mode) bs = (q : SocketBuffer Doc) × (lookup ℕ_discrete link bs ≡ some q)
  IsWatched control bs = Unit {0}
  IsWatched (subscribes s) bs = Unit {0}
  IsWatched publishes bs = Unit {0}

  -- What a mailbox's callback leaves of the state.
  unfoldable pub step : ℕ → Role → Packet Doc → Hub Doc → Hub Doc
  unfolding remote_mail own_mail subscriber_mail
  step a (remote link mode) p h = (remote_mail b code own now link mode p h).0
  step a control p h = (own_mail b code own now p h).0
  step a (subscribes s) p h = (subscriber_mail b code own now a s p h).0
  step a publishes p h = h

  -- What the link of a remote gets of a packet that its mailbox is handed.
  unfoldable pub offered : Mode → Counts → Packet Doc → SocketBuffer Doc → SocketBuffer Doc
  unfolding Remote.send push_out
  offered mode counts p q = elim (Remote.send b own mode counts p) [
    | none ↦ q
    | some r ↦ push_out q r
  ]

  -- A remote on a link that is watched reports a success, and its link gets the packet.
  pub remote_mail_lem :
      (link : ℕ) (mode : Mode) (p : Packet Doc) (h : Hub Doc) (q : SocketBuffer Doc)
      → lookup ℕ_discrete link h.buffers ≡ some q
      → let r = remote_mail b code own now link mode p h in
        (r.1 ≡ done)
        × (lookup ℕ_discrete link r.0.buffers
            ≡ some (offered mode h.control.known.subscription_count p q))
  unfolding remote_mail offered
  remote_mail_lem link mode p h q e =
      elim (Option-cases (Remote.send b own mode h.control.known.subscription_count p)) [
        | inl n ↦ ground (arith, n, e)
        | inr (r, f) ↦ ground (arith, f, send-watched h.buffers link q r e)
      ]

  pub remote_mail-other :
      (link l : ℕ) (mode : Mode) (p : Packet Doc) (h : Hub Doc)
      → link ≢ l
      → lookup ℕ_discrete l (remote_mail b code own now link mode p h).0.buffers
        ≡ lookup ℕ_discrete l h.buffers
  unfolding remote_mail
  remote_mail-other link l mode p h ne =
      elim (Option-cases (Remote.send b own mode h.control.known.subscription_count p)) [
        | inl n ↦ ground (arith, n)
        | inr (r, f) ↦ ground (arith, f, send-other h.buffers link l r ne)
      ]

  step-IsWatched :
      (a : ℕ) (role r : Role) (p : Packet Doc) (h : Hub Doc)
      → IsWatched role h.buffers
      → IsWatched r h.buffers
      → IsWatched r (step a role p h).buffers
  unfolding step own_mail subscriber_mail
  step-IsWatched a (remote l m) (remote link mode) p h (q, e) (v, f) = elim (ℕ_discrete l link) [
    | yes same ↦ (
      _,
      ap (λ k. lookup ℕ_discrete k (remote_mail b code own now l m p h).0.buffers) (sym same)
          ∙ (remote_mail_lem l m p h q e).1,
    )
    | no differ ↦ (v, remote_mail-other l link m p h differ ∙ f)
  ]
  step-IsWatched a control (remote link mode) p h v w = w
  step-IsWatched a (subscribes s) (remote link mode) p h v w = w
  step-IsWatched a publishes (remote link mode) p h v w = w
  step-IsWatched a role control p h v w = tt
  step-IsWatched a role (subscribes s) p h v w = tt
  step-IsWatched a role publishes p h v w = tt

  -- The mailboxes at the addresses, in a row.
  unfoldable pub steps : List ℕ → Packet Doc → Hub Doc → Hub Doc
  unfolding lookup ℕ_discrete step
  steps [] p h = h
  steps (a ∷ rest) p h = elim (lookup ℕ_discrete a roles) [
    | none ↦ steps rest p h
    | some post ↦ steps rest p (step a post.role p h)
  ]

  -- Each address has a mailbox, whose link is watched where it is a remote's.
  abbrev pub AreReady : List ℕ → Buffers Doc → Type 0
  AreReady [] bs = Unit {0}
  AreReady (a ∷ rest) bs =
      (post : Post) × (lookup ℕ_discrete a roles ≡ some post)
      × IsWatched post.role bs
      × AreReady rest bs

  step-AreReady :
      (a : ℕ) (role : Role) (p : Packet Doc) (h : Hub Doc) (rest : List ℕ)
      → IsWatched role h.buffers
      → AreReady rest h.buffers
      → AreReady rest (step a role p h).buffers
  step-AreReady a role p h [] v w = tt
  step-AreReady a role p h (c ∷ rest) v (post, e, x, y) =
      (post, e, step-IsWatched a role post.role p h v x, step-AreReady a role p h rest v y)

  lookup-boxes_of :
      (a : ℕ) (post : Post) (rs : Roles)
      → lookup ℕ_discrete a rs ≡ some post
      → lookup ℕ_discrete a (boxes_of b code own now rs) ≡ some (mailbox_of b code own now a post)
  unfolding lookup boxes_of
  lookup-boxes_of a post [] e = cc
  lookup-boxes_of a post ((c, r) ∷ rs) e = ground (arith, lookup-boxes_of a post rs)

  place_lem :
      (a : ℕ) (post : Post) (p : Packet Doc) (h : Hub Doc)
      → IsWatched post.role h.buffers
      → let placed = Mail.place_incoming_mail (mailbox_of b code own now a post) p h in
        (placed.0 ≡ step a post.role p h) × (placed.1 ≡ done)
  unfolding Mail.place_incoming_mail incoming_mail step
  place_lem a post p h w = by_role post.role w
    where
      by_role :
          (role : Role)
          → IsWatched role h.buffers
          → let placed =
              Mail.place_incoming_mail
                (mailbox_of b code own now a (record { topic = post.topic; role = role }))
                p
                h in
            (placed.0 ≡ step a role p h) × (placed.1 ≡ done)
      by_role (remote link mode) (q, e) = (refl, (remote_mail_lem link mode p h q e).0)
      by_role control w = (refl, refl)
      by_role (subscribes s) w = (refl, refl)
      by_role publishes w = (refl, refl)

  -- Where every address has a mailbox that is ready, no assertion fails.
  pub deliver_lem :
      (rs : List ℕ) (p : Packet Doc) (h : Hub Doc)
      → AreReady rs h.buffers
      → Mail.deliver (boxes_of b code own now roles) p rs h ≡ some (steps rs p h)
  unfolding Mail.deliver steps
  deliver_lem [] p h w = refl
  deliver_lem (a ∷ rest) p h (post, e, v, w) =
      let (state, fine) = place_lem a post p h v in
      ground (
        arith,
        e,
        lookup-boxes_of a post roles e,
        state,
        fine,
        deliver_lem rest p (step a post.role p h) (step-AreReady a post.role p h rest v w),
      )

  pub steps-append :
      (xs ys : List ℕ) (p : Packet Doc) (h : Hub Doc)
      → steps (xs ++ ys) p h ≡ steps ys p (steps xs p h)
  unfolding steps
  steps-append [] ys p h = refl
  steps-append (a ∷ xs) ys p h = elim (Option-cases (lookup ℕ_discrete a roles)) [
    | inl n ↦ ground (arith, n, steps-append xs ys p h)
    | inr (post, e) ↦ ground (arith, e, steps-append xs ys p (step a post.role p h))
  ]

  -- What is watched stays so.
  pub steps-IsWatched :
      (r : Role) (rs : List ℕ) (p : Packet Doc) (h : Hub Doc)
      → AreReady rs h.buffers
      → IsWatched r h.buffers
      → IsWatched r (steps rs p h).buffers
  unfolding steps
  steps-IsWatched r [] p h ready w = w
  steps-IsWatched r (a ∷ rest) p h (post, e, v, ready) w =
      rw (e, steps)
        (steps-IsWatched r rest p (step a post.role p h)
          (step-AreReady a post.role p h rest v ready) (step-IsWatched a post.role r p h v w))
