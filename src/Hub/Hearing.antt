-- ===== src/Hub/Hearing.antt =====
-- What a node makes of the infos that come in on a link.
use daylite.Prelude.{
  ℕ, suc, ◌≡◌, ◌≢◌, refl, sym, ap, ◌∙◌, false, none, some, List, [], ◌∷◌, map, ℕ_discrete, arith,
  length, ◌==◌, if◌then◌else◌,
}
use daylite.Prelude.Assoc.{lookup}
use daylite.Topic.{any, internal, topic_eq, internal-any, not_any}
use daylite.Packet.{NetworkTime, Packet, Bson}
use daylite.Thread as Thread
use daylite.Thread.{SocketBuffer, Buffers, pop_in}
use daylite.Thread.Sockets.{next-watched, next-other}
use daylite.Mail.{Mailman, id32, boxes}
use daylite.Node.{NodeInfo, receive_info}
use daylite.Node.Control.{info_or, control_mail}
use daylite.Node.Gossip.{receive_all}
use daylite.Remote.{Mode, found, insert_id}
use daylite.Hub.{InfoCode, remote, control, Roles, Hub, take_mail}
use daylite.Hub.Wired.{IsWired, rewatch-IsWired}
use daylite.Hub.Relay.{relay_lem, relayed, relayed-link}
use daylite.Hub.Heard.{relayed-control, relayed-IsWired}

module _ (b : Bson) (code : InfoCode b.Doc) (own : ℕ) (now : NetworkTime) (roles : Roles) where
  open b use {Doc}

  -- Internal packets that the node has not had.
  abbrev pub AreNews : List (Packet Doc) → Type 0
  AreNews [] = Unit {0}
  AreNews (p ∷ ps) = (p.meta.topic ≡ internal) × (found own p ≡ false) × AreNews ps

  abbrev pub info_of : Packet Doc → NodeInfo
  info_of p = info_or code.blank (code.unbind p.msg)

  pub next-IsWired :
      (m : Mailman) (h : Hub Doc) (link : ℕ) (q : SocketBuffer Doc)
      → IsWired b code own now roles m h
      → lookup ℕ_discrete link h.buffers ≡ some q
      → IsWired b code own now roles m (record h { buffers = (Thread.next h.buffers link).1 })
  next-IsWired m h link q v e =
      rewatch-IsWired b code own now roles m h (record h { buffers = after }) still v
    where
      after : Buffers Doc
      after = (Thread.next h.buffers link).1

      still :
          (l : ℕ) (x : SocketBuffer Doc)
          → lookup ℕ_discrete l h.buffers ≡ some x
          → (y : SocketBuffer Doc) × (lookup ℕ_discrete l after ≡ some y)
      still l x f = elim (ℕ_discrete link l) [
        | yes same ↦ (
          (pop_in q).1,
          ap (λ k. lookup ℕ_discrete k after) (sym same) ∙ (next-watched h.buffers link q e).1,
        )
        | no differ ↦ (x, next-other h.buffers link l differ ∙ f)
      ]

  -- What the node's own mailbox makes of an internal packet from another mailbox.
  learned :
      (a me : ℕ) (p : Packet Doc) (h h' : Hub Doc)
      → p.meta.topic ≡ internal
      → id32 a ≢ id32 me
      → h'.control ≡ (
          if id32 a == id32 me
          then h.control
          else if topic_eq internal p.meta.topic
          then control_mail own code.blank now p.meta.stamp (code.unbind p.msg) h.control
          else h.control)
      → h'.control.known ≡ receive_info own (info_of p) h.control.known
  unfolding control_mail topic_eq
  learned a me p h h' i ne e = ground (arith, i, e)

  pop_in-empty :
      (q : SocketBuffer Doc) → q.inbox ≡ [] → ((pop_in q).0 ≡ none) × ((pop_in q).1.inbox ≡ [])
  unfolding pop_in
  pop_in-empty q e = (ground (arith, e), ground (arith, e))

  pop_in-full :
      (q : SocketBuffer Doc) (p : Packet Doc) (ps : List (Packet Doc))
      → q.inbox ≡ p ∷ ps
      → ((pop_in q).0 ≡ some p) × ((pop_in q).1.inbox ≡ ps)
  unfolding pop_in
  pop_in-full q p ps e = (ground (arith, e), ground (arith, e))

  -- A remote whose link has brought internal packets that the node has not had takes them all in within as
  -- many rounds as there are and one: no assertion fails, and the node has received their infos in order.
  pub take_mail-receive_all :
      (ps : List (Packet Doc)) (m : Mailman) (me a link : ℕ) (mode : Mode) (ids : List ℕ)
      (h : Hub Doc) (q : SocketBuffer Doc)
      → IsWired b code own now roles m h
      → AreNews ps
      → lookup ℕ_discrete me roles ≡ some (record { topic = internal; role = control })
      → lookup ℕ_discrete (id32 me) (boxes m internal) ≡ some me
      → lookup ℕ_discrete a roles ≡ some (record { topic = any; role = remote link mode })
      → lookup ℕ_discrete (id32 a) (boxes m any) ≡ some a
      → id32 a ≢ id32 me
      → lookup ℕ_discrete link h.buffers ≡ some q
      → q.inbox ≡ ps
      → (h' : Hub Doc) × (ids' : List ℕ) × (take_mail b code own now
            (suc (length ps))
            roles
            m
            a
            link
            ids
            h
          ≡ some (ids', h'))
        × (h'.control.known ≡ receive_all own (map info_of ps) h.control.known)
        × ((q' : SocketBuffer Doc) × (lookup ℕ_discrete link h'.buffers ≡ some q')
            × (q'.inbox ≡ []))
        × IsWired b code own now roles m h'
  unfolding take_mail receive_all
  take_mail-receive_all [] m me a link mode ids h q v news mine there at linked ne e empty =
      let (none_left, still) = pop_in-empty q empty in
      let (popped, kept) = next-watched h.buffers link q e in
      (
        record h { buffers = (Thread.next h.buffers link).1 },
        ids,
        ground (arith, popped, none_left),
        refl,
        ((pop_in q).1, kept, still),
        next-IsWired m h link q v e,
      )
  take_mail-receive_all (p ∷ ps) m me a link mode ids h q v (i, fresh, news) mine there at linked ne
        e full =
      let (one, left) = pop_in-full q p ps full in
      let (popped, kept) = next-watched h.buffers link q e in
      let h1 : Hub Doc = record h { buffers = (Thread.next h.buffers link).1 } in
      let v1 = next-IsWired m h link q v e in
      let h2 = relayed b code own now roles m a p h1 in
      let same =
        relayed-control b code own now roles m a p h1 me internal v1 (not_any i) internal-any mine
          there in
      let back =
        relayed-link b code own now roles m a p h1 a link mode (pop_in q).1 v1 (not_any i) at linked
          kept in
      let (h', ids', f, g, left_none, wired) =
        take_mail-receive_all ps m me a link mode (insert_id p.meta.id ids) h2 (pop_in q).1
          (relayed-IsWired b code own now roles m a p h1 v1) news mine there at linked ne
          (ground (arith, back)) left in
      (
        h',
        ids',
        ground (arith, popped, one, fresh, relay_lem b code own now roles m a p h1 v1, f),
        g ∙ ap (receive_all own (map info_of ps)) (learned a me p h1 h2 i ne same),
        left_none,
        wired,
      )
