-- ===== src/Hub/Leaving.antt =====
-- The mailboxes of a node stay wired when remotes go.
use mathlib.Core.Path.{subst}
use daylite.Prelude.{
  ℕ, ◌≡◌, ◌≢◌, refl, sym, ap, ◌∙◌, some, List, [], ◌∷◌, ℕ_discrete, ite, arith, Option-cases,
  Bool-cases, inl, inr, String-discrete, ◌==◌,
}
use daylite.Prelude.Assoc.{lookup, remove, lookup-remove}
use daylite.Topic.{Topic, any}
use daylite.Packet.{NetworkTime, Bson}
use daylite.Thread.{Buffers, remove_socket}
use daylite.Mail.{Mailman, id32, boxes, leave}
use daylite.Mail.Recipients.{AreKeyed, leave-IsKeyed}
use daylite.Node.Tally.{IsTallied}
use daylite.Remote.{Mode}
use daylite.Peers.{Peer, Links, shutdown, drop_socket}
use daylite.Peers.Linked.{Apart, AreLinked}
use daylite.Peers.Departure.{Detached, detach-Detached, staying}
use daylite.Hub.{InfoCode, Role, remote, control, subscribes, publishes, Post, Roles, Hub}
use daylite.Hub.Whole.{drop_roles}
use daylite.Hub.Steps.{IsWatched}
use daylite.Hub.Wired.{Fits, ArePlaced, IsWired}

remove_socket-other :
    {Doc : Type 0} (bs : Buffers Doc) (r s : ℕ)
    → r ≢ s
    → lookup ℕ_discrete s (remove_socket bs r).1 ≡ lookup ℕ_discrete s bs
unfolding remove_socket
remove_socket-other bs r s ne = elim (Option-cases (lookup ℕ_discrete r bs)) [
  | inl e ↦ ground (arith, e)
  | inr (v, e) ↦ ground (arith, ne, e, lookup-remove ℕ_discrete r s bs)
]

module _ (b : Bson) (code : InfoCode b.Doc) (own : ℕ) (now : NetworkTime) (roles : Roles)
    (box : ℕ) where
  open b use {Doc}

  abbrev pub without : Roles
  without = remove ℕ_discrete box roles

  was :
      (a : ℕ) (post : Post)
      → lookup ℕ_discrete a without ≡ some post
      → (box ≢ a) × (lookup ℕ_discrete a roles ≡ some post)
  was a post e = ground (arith, e, lookup-remove ℕ_discrete box a roles)

  pub stays :
      (a : ℕ) (post : Post)
      → box ≢ a
      → lookup ℕ_discrete a roles ≡ some post
      → lookup ℕ_discrete a without ≡ some post
  stays a post ne e = ground (arith, ne, e, lookup-remove ℕ_discrete box a roles)

  Fits-without :
      (topic : Topic) (role : Role)
      → Fits b code own now roles topic role
      → Fits b code own now without topic role
  Fits-without topic (remote l m) f = f
  Fits-without topic control f = f
  Fits-without topic (subscribes s) f = tt
  Fits-without topic publishes f = tt

  -- The entries that are left: those of its topic less its id, and those of other topics.
  remove-ArePlaced :
      (topic : Topic) (bs : List (ℕ × ℕ))
      → AreKeyed bs
      → ArePlaced b code own now roles topic bs
      → ArePlaced b code own now without topic (remove ℕ_discrete (id32 box) bs)
  unfolding remove
  remove-ArePlaced topic [] k p = tt
  remove-ArePlaced topic ((j, a) ∷ bs) k (role, e, fits, p) =
      elim (ℕ_discrete j (id32 box))
        as (λ d.
          ArePlaced b code own now without topic
            (ite d (remove ℕ_discrete (id32 box) bs) ((j, a) ∷ remove ℕ_discrete (id32 box) bs))) [
              | yes same ↦ remove-ArePlaced topic bs k.2 p
              | no differ ↦ (
                role,
                stays a (record { topic = topic; role = role })
                    (λ q. differ (k.0 ∙ ap id32 (sym q))) e,
                Fits-without topic role fits,
                remove-ArePlaced topic bs k.2 p,
              )
            ]

  foreign-ArePlaced :
      (topic : Topic) (post : Post) (bs : List (ℕ × ℕ))
      → lookup ℕ_discrete box roles ≡ some post
      → topic ≢ post.topic
      → ArePlaced b code own now roles topic bs
      → ArePlaced b code own now without topic bs
  foreign-ArePlaced topic post [] at ne p = tt
  foreign-ArePlaced topic post ((j, a) ∷ bs) at ne (role, e, fits, p) = (
    role,
    stays a (record { topic = topic; role = role }) (λ q. ne (ground (arith, q, at, e))) e,
    Fits-without topic role fits,
    foreign-ArePlaced topic post bs at ne p,
  )

-- The mailboxes of the remotes of the list are theirs.
abbrev pub ArePosted : Roles → List Peer → Type 0
ArePosted roles [] = Unit {0}
ArePosted roles (p ∷ ps) =
    (mode : Mode) × (lookup ℕ_discrete p.box roles
      ≡ some (record { topic = any; role = remote p.link mode }))
    × ArePosted roles ps

module _ (b : Bson) (code : InfoCode b.Doc) (own : ℕ) (now : NetworkTime) where
  open b use {Doc}

  detach-ArePosted :
      (roles : Roles) (box : ℕ) (ps : List Peer)
      → Apart (id32 box) ps
      → ArePosted roles ps
      → ArePosted (without b code own now roles box) ps
  detach-ArePosted roles box [] out v = tt
  detach-ArePosted roles box (p ∷ ps) out (mode, e, v) = (
    mode,
    stays b code own now roles box p.box (record { topic = any; role = remote p.link mode })
        (λ q. out.0 (ap id32 q)) e,
    detach-ArePosted roles box ps out.1 v,
  )

  -- A mailbox that leaves the mailman leaves the others wired, where their links are watched then.
  pub leave-IsWired :
      (roles : Roles) (box : ℕ) (post : Post) (m m' : Mailman) (h h' : Hub Doc)
      → IsWired b code own now roles m h
      → lookup ℕ_discrete box roles ≡ some post
      → leave m post.topic box ≡ some (box, m')
      → ((u : Topic)
          → boxes m' u
            ≡ ite
                (String-discrete post.topic u)
                (remove ℕ_discrete (id32 box) (boxes m post.topic))
                (boxes m u))
      → ((a : ℕ) (other : Post)
          → box ≢ a
          → lookup ℕ_discrete a roles ≡ some other
          → IsWatched b code own now (without b code own now roles box) other.role h'.buffers)
      → IsWired b code own now (without b code own now roles box) m' h'
  leave-IsWired roles box post m m' h h' v at left table still = record {
    keyed = leave-IsKeyed m m' post.topic box box v.keyed left;
    placed = λ topic.
        rw (table topic)
          (elim (String-discrete post.topic topic)
            as (λ d.
              ArePlaced b code own now (without b code own now roles box) topic
                (ite d (remove ℕ_discrete (id32 box) (boxes m post.topic)) (boxes m topic))) [
                  | yes same ↦
                      subst
                        (λ t.
                          ArePlaced b code own now (without b code own now roles box) t
                            (remove ℕ_discrete (id32 box) (boxes m post.topic)))
                        same
                        (remove-ArePlaced b code own now roles box post.topic (boxes m post.topic)
                          (v.keyed post.topic) (v.placed post.topic))
                  | no differ ↦
                      foreign-ArePlaced b code own now roles box topic post (boxes m topic) at
                        (λ e. differ (sym e)) (v.placed topic)
                ]);
    alone = λ a link mode other e f c next m2 g.
        v.alone a link mode other (was b code own now roles box a other e).1 f c next m2
          (was b code own now roles box c next g).1;
    own_alone = λ a other e f c next g.
        v.own_alone a other (was b code own now roles box a other e).1 f c next
          (was b code own now roles box c next g).1;
    watched =
        λ a other e. let (ne, f) = was b code own now roles box a other e in still a other ne f;
  }

  -- A remote is detached, and its link is no longer watched.
  detach-IsWired :
      (roles : Roles) (p : Peer) (ps : List Peer) (mode : Mode) (l l' : Links Doc) (h : Hub Doc)
      → IsWired b code own now roles l.mailman (record h { buffers = l.buffers })
      → lookup ℕ_discrete p.box roles ≡ some (record { topic = any; role = remote p.link mode })
      → Detached p ps l l'
      → IsWired b code own now
          (without b code own now roles p.box)
          l'.mailman
          (record h { buffers = l'.buffers })
  unfolding shutdown
  detach-IsWired roles p ps mode l l' h v at d =
      leave-IsWired roles p.box mine l.mailman l'.mailman (record h { buffers = l.buffers })
        (record h { buffers = l'.buffers }) v at d.left d.table
        (λ a post ne e. still a post ne e post.role refl (v.watched a post e))
    where
      mine : Post
      mine = record { topic = any; role = remote p.link mode }

      still :
          (a : ℕ) (post : Post)
          → p.box ≢ a
          → lookup ℕ_discrete a roles ≡ some post
          → (r : Role) → post.role ≡ r
          → IsWatched b code own now roles r l.buffers
          → IsWatched b code own now (without b code own now roles p.box) r l'.buffers
      still a post ne e (remote link m) f (q, w) = (
        q,
        ap (lookup ℕ_discrete link) d.shut
            ∙ remove_socket-other l.buffers p.link link
                (λ s. ne (v.alone a link m post e f p.box mine mode at (ap (λ k. remote k mode) s)))
            ∙ w,
      )
      still a post ne e control f w = tt
      still a post ne e (subscribes s) f w = tt
      still a post ne e publishes f w = tt

  lookup-drop_roles :
      (socket : ℕ) (ps : List Peer) (roles : Roles) (p : Peer) (post : Post)
      → Apart (id32 p.box) ps
      → lookup ℕ_discrete p.box roles ≡ some post
      → lookup ℕ_discrete p.box (drop_roles socket ps roles) ≡ some post
  unfolding drop_roles
  lookup-drop_roles socket [] roles p post out e = e
  lookup-drop_roles socket (q ∷ ps) roles p post out e = elim (Bool-cases (q.socket == socket)) [
    | inl on ↦
        rw (on, drop_roles)
          (lookup-drop_roles socket ps (without b code own now roles q.box) p post out.1
            (stays b code own now roles q.box p.box post (λ s. out.0 (sym (ap id32 s))) e))
    | inr off ↦ rw (off, drop_roles) (lookup-drop_roles socket ps roles p post out.1 e)
  ]

  -- The remotes on a socket go, with their mailboxes.
  pub drop_socket-IsWired :
      (socket : ℕ) (ps : List Peer) (l : Links Doc) (roles : Roles) (h : Hub Doc)
      → IsWired b code own now roles l.mailman (record h { buffers = l.buffers })
      → AreLinked ps l.mailman
      → IsTallied l.known
      → ArePosted roles ps
      → (l' : Links Doc) × (drop_socket socket ps l ≡ some (staying socket ps, l'))
        × IsWired b code own now
            (drop_roles socket ps roles)
            l'.mailman
            (record h { buffers = l'.buffers })
        × ArePosted (drop_roles socket ps roles) (staying socket ps)
  unfolding drop_socket staying drop_roles
  drop_socket-IsWired socket [] l roles h v linked t posted = (l, refl, v, tt)
  drop_socket-IsWired socket (p ∷ ps) l roles h v linked t (mode, at, posted) =
      elim (Bool-cases (p.socket == socket)) [
        | inl on ↦
            let (l1, d) = detach-Detached p ps l linked t in
            let (l', e, w, x) =
              drop_socket-IsWired socket ps l1 (without b code own now roles p.box) h
                (detach-IsWired roles p ps mode l l1 h v at d) d.linked d.tallied
                (detach-ArePosted roles p.box ps linked.1 posted) in
            (
              l',
              rw (on, drop_socket, staying, d.found, e) refl,
              rw (on, drop_roles) w,
              rw (on, drop_roles, staying) x,
            )
        | inr off ↦
            let (l', e, w, x) = drop_socket-IsWired socket ps l roles h v linked.2 t posted in
            (
              l',
              rw (off, drop_socket, staying, e) refl,
              rw (off, drop_roles) w,
              rw (off, drop_roles, staying)
                  (
                    mode,
                    lookup-drop_roles socket ps roles p
                        (record { topic = any; role = remote p.link mode }) linked.1 at,
                    x,
                  ),
            )
      ]
