-- ===== src/Hub/Shares.antt =====
-- What the link of one remote, and one subscriber, get of a packet that is handed to mailboxes in a row.
use daylite.Prelude.{
  ℕ, zero, suc, ◌≡◌, ◌≢◌, refl, sym, ap, ◌∙◌, Option, some, List, [], ◌∷◌, ◌++◌, ℕ_discrete, ite,
  arith, count, Option-cases, inl, inr, append_assoc, append-nil,
}
use daylite.Prelude.Assoc.{lookup}
use daylite.Topic.{Topic}
use daylite.Packet.{NetworkTime, Packet, Bson}
use daylite.Thread.{SocketBuffer}
use daylite.Node.{Counts}
use daylite.Node.Control.{Control, control_mail}
use daylite.Remote.{Mode}
use daylite.Endpoint.{Subscriber, received}
use daylite.Hub.{
  InfoCode, Role, remote, control, subscribes, publishes, Post, Roles, Hub, remote_mail, own_mail,
  subscriber_mail,
}
use daylite.Hub.Steps.{step, steps, offered, remote_mail_lem, remote_mail-other}

module _ (b : Bson) (code : InfoCode b.Doc) (own : ℕ) (now : NetworkTime) (roles : Roles) where
  open b use {Doc}

  -- No other mailbox is that of a remote on the link.
  abbrev pub IsAlone : ℕ → ℕ → Type 0
  IsAlone a link =
      (c : ℕ) (post : Post) (mode : Mode)
      → lookup ℕ_discrete c roles ≡ some post
      → post.role ≡ remote link mode
      → c ≡ a

  -- None of the mailboxes is the node's own.
  abbrev pub AreBare : List ℕ → Type 0
  AreBare [] = Unit {0}
  AreBare (a ∷ rest) =
      ((post : Post) → lookup ℕ_discrete a roles ≡ some post → post.role ≢ control) × AreBare rest

  step-other :
      (a link : ℕ) (role : Role) (p : Packet Doc) (h : Hub Doc)
      → ((mode : Mode) → role ≢ remote link mode)
      → lookup ℕ_discrete link (step b code own now roles a role p h).buffers
        ≡ lookup ℕ_discrete link h.buffers
  unfolding step own_mail subscriber_mail
  step-other a link (remote l mode) p h ne = elim (ℕ_discrete l link) [
    | yes same ↦ absurd (ne mode (ap (λ k. remote k mode) same))
    | no differ ↦ remote_mail-other b code own now roles l link mode p h differ
  ]
  step-other a link control p h ne = refl
  step-other a link (subscribes s) p h ne = refl
  step-other a link publishes p h ne = refl

  step-control :
      (a : ℕ) (role : Role) (p : Packet Doc) (h : Hub Doc)
      → role ≢ control
      → (step b code own now roles a role p h).control ≡ h.control
  unfolding step remote_mail subscriber_mail
  step-control a (remote l mode) p h ne = ground arith
  step-control a control p h ne = absurd (ne refl)
  step-control a (subscribes s) p h ne = refl
  step-control a publishes p h ne = refl

  -- The link of a remote whose mailbox is none of them stays as it is.
  pub steps-other :
      (a link : ℕ) (rs : List ℕ) (p : Packet Doc) (h : Hub Doc)
      → IsAlone a link
      → count ℕ_discrete a rs ≡ 0
      → lookup ℕ_discrete link (steps b code own now roles rs p h).buffers
        ≡ lookup ℕ_discrete link h.buffers
  unfolding steps count
  steps-other a link [] p h alone none_of = refl
  steps-other a link (c ∷ rest) p h alone none_of =
      elim (Option-cases (lookup ℕ_discrete c roles)) [
        | inl n ↦ rw (n, steps) (steps-other a link rest p h alone (ground arith))
        | inr (post, e) ↦
            rw (e, steps)
              (steps-other a link rest p (step b code own now roles c post.role p h) alone
                  (ground arith)
                ∙ step-other c link post.role p h
                    λ mode f. absurd (ground (arith, alone c post mode e f)))
      ]

  -- The packet offered to a link as often as said.
  unfoldable pub offers : ℕ → Mode → Counts → Packet Doc → SocketBuffer Doc → SocketBuffer Doc
  unfolding offered
  offers zero mode counts p q = q
  offers (suc n) mode counts p q =
      offers n mode counts p (offered b code own now roles mode counts p q)

  -- Where the node's own mailbox is none of them, the link of a remote gets the packet as often as the
  -- remote's mailbox does, and what the node knows stays as it is.
  pub steps-link :
      (a link : ℕ) (mode : Mode) (topic : Topic) (rs : List ℕ) (p : Packet Doc) (h : Hub Doc)
      (q : SocketBuffer Doc)
      → lookup ℕ_discrete a roles ≡ some (record { topic = topic; role = remote link mode })
      → IsAlone a link
      → AreBare rs
      → lookup ℕ_discrete link h.buffers ≡ some q
      → let h' = steps b code own now roles rs p h in
        (lookup ℕ_discrete link h'.buffers
          ≡ some (offers (count ℕ_discrete a rs) mode h.control.known.subscription_count p q))
        × (h'.control ≡ h.control)
  unfolding steps offers count
  steps-link a link mode topic [] p h q at alone bare e = (e, refl)
  steps-link a link mode topic (c ∷ rest) p h q at alone bare e = elim (ℕ_discrete c a) [
    | yes same ↦
        let h' = step b code own now roles a (remote link mode) p h in
        let q' = offered b code own now roles mode h.control.known.subscription_count p q in
        let bare_of = step-control a (remote link mode) p h (λ f. cc) in
        ground (
          arith,
          at,
          bare_of,
          ap (λ c. c.known.subscription_count) bare_of,
          steps-link a link mode topic rest p h' q' at alone bare.1
              (remote_mail_lem b code own now roles link mode p h q e).1,
        )
    | no differ ↦ elim (Option-cases (lookup ℕ_discrete c roles)) [
      | inl n ↦ ground (arith, n, steps-link a link mode topic rest p h q at alone bare.1 e)
      | inr (post, f) ↦
          let h' = step b code own now roles c post.role p h in
          let bare_of = step-control c post.role p h (bare.0 post f) in
          ground (
            arith,
            f,
            bare_of,
            ap (λ c. c.known.subscription_count) bare_of,
            steps-link a link mode topic rest p h' q at alone bare.1
                (step-other c link post.role p h (λ m g. differ (alone c post m f g)) ∙ e),
          )
    ]
  ]

  -- What the callback of the subscriber whose mailbox has the address was given.
  unfoldable pub heard : ℕ → List (ℕ × Option Doc) → List (Option Doc)
  heard a [] = []
  heard a ((c, d) ∷ journal) = ite (ℕ_discrete c a) (d ∷ heard a journal) (heard a journal)

  heard-append :
      (a : ℕ) (xs ys : List (ℕ × Option Doc)) → heard a (xs ++ ys) ≡ heard a xs ++ heard a ys
  unfolding heard
  heard-append a [] ys = refl
  heard-append a ((c, d) ∷ xs) ys = ground (arith, heard-append a xs ys)

  abbrev pub times : ℕ → Option Doc → List (Option Doc)
  times zero d = []
  times (suc n) d = d ∷ times n d

  step-heard :
      (a c : ℕ) (role : Role) (p : Packet Doc) (h : Hub Doc)
      → c ≢ a
      → heard a (step b code own now roles c role p h).journal ≡ heard a h.journal
  unfolding step remote_mail own_mail subscriber_mail heard
  step-heard a c (remote l mode) p h ne = ground arith
  step-heard a c control p h ne = refl
  step-heard a c (subscribes s) p h ne =
      ground
        (arith, heard-append a h.journal ((c, received b s p) ∷ []), append-nil (heard a h.journal))
  step-heard a c publishes p h ne = refl

  own_step :
      (a : ℕ) (s : Subscriber) (p : Packet Doc) (h : Hub Doc)
      → heard a (step b code own now roles a (subscribes s) p h).journal
        ≡ heard a h.journal ++ received b s p ∷ []
  unfolding step subscriber_mail heard
  own_step a s p h = ground (arith, heard-append a h.journal ((a, received b s p) ∷ []))

  -- A subscriber is given the packet as often as its mailbox is.
  pub steps-heard :
      (a : ℕ) (s : Subscriber) (topic : Topic) (rs : List ℕ) (p : Packet Doc) (h : Hub Doc)
      → lookup ℕ_discrete a roles ≡ some (record { topic = topic; role = subscribes s })
      → heard a (steps b code own now roles rs p h).journal
        ≡ heard a h.journal ++ times (count ℕ_discrete a rs) (received b s p)
  unfolding steps count
  steps-heard a s topic [] p h at = sym (append-nil (heard a h.journal))
  steps-heard a s topic (c ∷ rest) p h at = elim (ℕ_discrete c a) [
    | yes same ↦
        let h' = step b code own now roles a (subscribes s) p h in
        ground (
          arith,
          at,
          own_step a s p h,
          steps-heard a s topic rest p h' at,
          append_assoc (heard a h.journal) (received b s p ∷ [])
              (times (count ℕ_discrete a rest) (received b s p)),
        )
    | no differ ↦ elim (Option-cases (lookup ℕ_discrete c roles)) [
      | inl n ↦ ground (arith, n, steps-heard a s topic rest p h at)
      | inr (post, f) ↦
          let h' = step b code own now roles c post.role p h in
          ground (arith, f, step-heard a c post.role p h differ, steps-heard a s topic rest p h' at)
    ]
  ]

  -- No other mailbox is the node's own.
  abbrev pub IsOwn : ℕ → Type 0
  IsOwn a =
      (c : ℕ) (post : Post) → lookup ℕ_discrete c roles ≡ some post → post.role ≡ control → c ≡ a

  -- The callback of the node's own mailbox, as often as said.
  unfoldable pub heeds : ℕ → Packet Doc → Control → Control
  heeds zero p c = c
  heeds (suc n) p c = heeds n p (control_mail own code.blank now p.meta.stamp (code.unbind p.msg) c)

  control_step :
      (a : ℕ) (p : Packet Doc) (h : Hub Doc)
      → (step b code own now roles a control p h).control
        ≡ control_mail own code.blank now p.meta.stamp (code.unbind p.msg) h.control
  unfolding step own_mail
  control_step a p h = refl

  pub steps-heeds :
      (a : ℕ) (topic : Topic) (rs : List ℕ) (p : Packet Doc) (h : Hub Doc)
      → lookup ℕ_discrete a roles ≡ some (record { topic = topic; role = control })
      → IsOwn a
      → (steps b code own now roles rs p h).control ≡ heeds (count ℕ_discrete a rs) p h.control
  unfolding steps count heeds
  steps-heeds a topic [] p h at alone = refl
  steps-heeds a topic (c ∷ rest) p h at alone = elim (ℕ_discrete c a) [
    | yes same ↦
        let h' = step b code own now roles a control p h in
        ground (arith, at, control_step a p h, steps-heeds a topic rest p h' at alone)
    | no differ ↦ elim (Option-cases (lookup ℕ_discrete c roles)) [
      | inl n ↦ ground (arith, n, steps-heeds a topic rest p h at alone)
      | inr (post, f) ↦
          let h' = step b code own now roles c post.role p h in
          ground (
            arith,
            f,
            step-control c post.role p h (λ g. differ (alone c post f g)),
            steps-heeds a topic rest p h' at alone,
          )
    ]
  ]
