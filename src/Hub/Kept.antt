-- ===== src/Hub/Kept.antt =====
-- What every packet that a mailbox of a node places keeps, and every packet that a remote takes in.
use daylite.Prelude.{
  ℕ, zero, suc, ◌≡◌, refl, some, List, [], ◌∷◌, ℕ_discrete, Option-cases, Bool-cases, inl, inr,
  String,
}
use daylite.Prelude.Assoc.{lookup}
use daylite.Outcome.{done}
use daylite.Packet.{NetworkTime, Meta, Packet, Bson}
use daylite.Thread as Thread
use daylite.Thread.{SocketBuffer, pop_in}
use daylite.Thread.Sockets.{next-watched}
use daylite.Mail.{Mailman, recipients}
use daylite.Node.Control.{info_or, control_mail}
use daylite.Node.Tally.{IsTallied, receive_info-IsTallied}
use daylite.Remote as Remote
use daylite.Remote.{Mode, found, insert_id}
use daylite.Hub.{
  InfoCode, Role, remote, control, subscribes, publishes, Roles, Hub, remote_mail, own_mail,
  subscriber_mail, relay, take_mail,
}
use daylite.Hub.Whole.{place_all}
use daylite.Hub.Steps.{IsWatched, step, steps, steps-IsWatched}
use daylite.Hub.Wired.{IsWired, recipients-AreReady}
use daylite.Hub.Relay.{relay_lem, relayed}
use daylite.Hub.Heard.{relayed-IsWired}
use daylite.Hub.Hearing.{next-IsWired}

module _ (b : Bson) (code : InfoCode b.Doc) (own : ℕ) (now : NetworkTime) (roles : Roles) where
  open b use {Doc}

  step-IsTallied :
      (a : ℕ) (role : Role) (p : Packet Doc) (h : Hub Doc)
      → IsTallied h.control.known
      → IsTallied (step b code own now roles a role p h).control.known
  unfolding step remote_mail own_mail subscriber_mail control_mail
  step-IsTallied a (remote link mode) p h t =
      elim (Option-cases (Remote.send b own mode h.control.known.subscription_count p)) [
        | inl n ↦ rw (n, step, remote_mail) t
        | inr (q, e) ↦ rw (e, step, remote_mail) t
      ]
  step-IsTallied a control p h t =
      receive_info-IsTallied own (info_or code.blank (code.unbind p.msg)) h.control.known t
  step-IsTallied a (subscribes s) p h t = t
  step-IsTallied a publishes p h t = t

  steps-IsTallied :
      (rs : List ℕ) (p : Packet Doc) (h : Hub Doc)
      → IsTallied h.control.known
      → IsTallied (steps b code own now roles rs p h).control.known
  unfolding steps
  steps-IsTallied [] p h t = t
  steps-IsTallied (a ∷ rest) p h t = elim (Option-cases (lookup ℕ_discrete a roles)) [
    | inl n ↦ rw (n, steps) (steps-IsTallied rest p h t)
    | inr (post, e) ↦
        rw (e, steps)
          (steps-IsTallied rest p (step b code own now roles a post.role p h)
            (step-IsTallied a post.role p h t))
  ]

  -- The mailboxes are wired, and the counters are those of the infos.
  pub record IsKept (m : Mailman) (h : Hub Doc) : Type 0 where
    pub wired : IsWired b code own now roles m h
    pub tallied : IsTallied h.control.known

  relayed-IsKept :
      (m : Mailman) (sender : ℕ) (p : Packet Doc) (h : Hub Doc)
      → IsKept m h
      → IsKept m (relayed b code own now roles m sender p h)
  relayed-IsKept m sender p h v = record {
    wired = relayed-IsWired b code own now roles m sender p h v.wired;
    tallied = steps-IsTallied (recipients m sender p.meta.topic) p h v.tallied;
  }

  pub relay-IsKept :
      (m : Mailman) (sender : ℕ) (p : Packet Doc) (h : Hub Doc)
      → IsKept m h
      → (h' : Hub Doc) × (relay b code own now roles m sender p h ≡ some (h', done)) × IsKept m h'
  relay-IsKept m sender p h v = (
    relayed b code own now roles m sender p h,
    relay_lem b code own now roles m sender p h v.wired,
    relayed-IsKept m sender p h v,
  )

  pub place_all-IsKept :
      (blank : Meta) (subscribed published : ℕ → String) (me : ℕ) (m : Mailman)
      (ps : List (Packet Doc)) (h : Hub Doc)
      → IsKept m h
      → (h' : Hub Doc) × (place_all b code own blank subscribed published me now roles m ps h
          ≡ some h')
        × IsKept m h'
  unfolding place_all
  place_all-IsKept blank s u me m [] h v = (h, refl, v)
  place_all-IsKept blank s u me m (p ∷ ps) h v =
      let (h1, e, w) = relay-IsKept m me p h v in
      let (h', f, x) = place_all-IsKept blank s u me m ps h1 w in (h', rw (e, place_all) f, x)

  -- A remote takes what its link has brought, for as many rounds as there are.
  pub take_mail-IsKept :
      (n : ℕ) (m : Mailman) (a link : ℕ) (ids : List ℕ) (h : Hub Doc)
      → IsWatched b code own now roles (remote link Remote.allow_internal) h.buffers
      → IsKept m h
      → (h' : Hub Doc) × (ids' : List ℕ) × (take_mail b code own now n roles m a link ids h
          ≡ some (ids', h'))
        × IsKept m h'
  unfolding take_mail
  take_mail-IsKept zero m a link ids h w v = (h, ids, refl, v)
  take_mail-IsKept (suc n) m a link ids h (q, e) v =
      let h1 : Hub Doc = record h { buffers = (Thread.next h.buffers link).1 } in
      let v1 : IsKept m h1 = record {
        wired = next-IsWired b code own now roles m h link q v.wired e;
        tallied = v.tallied;
      } in
      let kept = (pop_in q).1 in
      elim (Option-cases (Thread.next h.buffers link).0) [
        | inl empty ↦ (h1, ids, rw (empty, take_mail), v1)
        | inr (p, full) ↦ elim (Bool-cases (found own p)) [
          | inl had ↦
              let (h', ids', f, x) =
                take_mail-IsKept n m a link ids h1 (kept, (next-watched h.buffers link q e).1) v1 in
              (h', ids', rw (full, had, take_mail) f, x)
          | inr new ↦
              let h2 = relayed b code own now roles m a p h1 in
              let (h', ids', f, x) =
                take_mail-IsKept n m a link (insert_id p.meta.id ids) h2
                  (steps-IsWatched b code own now roles (remote link Remote.allow_internal)
                    (recipients m a p.meta.topic) p h1
                    (recipients-AreReady b code own now roles m h1 v1.wired a p.meta.topic)
                    (kept, (next-watched h.buffers link q e).1))
                  (relayed-IsKept m a p h1 v1) in
              (
                h',
                ids',
                rw (full, new, relay_lem b code own now roles m a p h1 v1.wired, take_mail) f,
                x,
              )
        ]
      ]
