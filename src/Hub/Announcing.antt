-- ===== src/Hub/Announcing.antt =====
-- What send_info of a node queues on the link of a remote.
use daylite.Prelude.{
  ℕ, ◌≡◌, ◌≢◌, refl, sym, ap, ◌∙◌, some, List, [], ◌∷◌, ◌++◌, map, String, ℕ_discrete,
  String-discrete, arith, append-nil, append_assoc, Bool,
}
use daylite.Prelude.Assoc.{lookup}
use daylite.Topic.{any, internal, topic_eq, internal-any, not_any}
use daylite.Packet.{NetworkTime, Meta, Packet, Bson, make, build}
use daylite.Clock.{update_time}
use daylite.Thread.{SocketBuffer, push_out}
use daylite.Mail.{Mailman, id32, boxes}
use daylite.Node as Node
use daylite.Node.{NodeInfo, Counts, register_subscriber}
use daylite.Remote as Remote
use daylite.Remote.{Mode, allow_internal, stamped}
use daylite.Hub.{InfoCode, remote, control, Roles, Hub}
use daylite.Hub.Wired.{rewatch-IsWired, IsWired}
use daylite.Hub.Whole.{NodeImpl, info_packet, place_all, info_packets, send_info}
use daylite.Hub.Steps.{offered}
use daylite.Hub.Relay.{relay_lem, relayed, relayed-link}
use daylite.Hub.Heard.{relayed-control, relayed-IsWired}

module _ (b : Bson) (code : InfoCode b.Doc) (own : ℕ) (blank : Meta) (me : ℕ)
    (now : NetworkTime) where
  open b use {Doc}

  -- A packet of an info goes through where internal packets do, and is not droppable.
  offered-info_packet :
      (roles : Roles) (counts : Counts) (time : NetworkTime) (i : NodeInfo) (q : SocketBuffer Doc)
      (subscribed published : ℕ → String)
      → let p = info_packet b code own blank subscribed published me now time i in
        offered b code own now roles allow_internal counts p q
        ≡ record q { outbox = q.outbox ++ stamped b own p ∷ [] }
  unfolding offered Remote.send topic_eq info_packet make build push_out stamped String-discrete
  offered-info_packet roles counts time i q s u = refl

  abbrev pub AreInternal : List (Packet Doc) → Type 0
  AreInternal [] = Unit {0}
  AreInternal (p ∷ ps) = (p.meta.topic ≡ internal) × AreInternal ps

  -- The link of a remote after packets that are placed one by one, as each is offered to it.
  abbrev pub offered_all : Roles → Counts → List (Packet Doc) → SocketBuffer Doc → SocketBuffer Doc
  offered_all roles counts [] q = q
  offered_all roles counts (p ∷ ps) q =
      offered_all roles counts ps (offered b code own now roles allow_internal counts p q)

  -- Whatever the node's own mailbox places, the node is left with what it knows and with its clock, and
  -- the link of each other mailbox's remote gets the packets in order.
  place_all_lem :
      (roles : Roles) (m : Mailman) (ps : List (Packet Doc)) (h : Hub Doc) (a link : ℕ)
      (q : SocketBuffer Doc) (subscribed published : ℕ → String)
      → IsWired b code own now roles m h
      → AreInternal ps
      → lookup ℕ_discrete me roles ≡ some (record { topic = internal; role = control })
      → lookup ℕ_discrete (id32 me) (boxes m internal) ≡ some me
      → lookup ℕ_discrete a roles ≡ some (record { topic = any; role = remote link allow_internal })
      → lookup ℕ_discrete (id32 a) (boxes m any) ≡ some a
      → id32 me ≢ id32 a
      → lookup ℕ_discrete link h.buffers ≡ some q
      → (h' : Hub Doc) × (place_all b code own blank subscribed published me now roles m ps h
          ≡ some h')
        × (lookup ℕ_discrete link h'.buffers
            ≡ some (offered_all roles h.control.known.subscription_count ps q))
        × (h'.control ≡ h.control)
        × IsWired b code own now roles m h'
  unfolding place_all
  place_all_lem roles m [] h a link q s u v i mine there at linked ne e = (h, refl, e, refl, v)
  place_all_lem roles m (p ∷ ps) h a link q s u v (i, is) mine there at linked ne e =
      let h1 = relayed b code own now roles m me p h in
      let v1 = relayed-IsWired b code own now roles m me p h v in
      let out =
        relayed-link b code own now roles m me p h a link allow_internal q v (not_any i) at linked
          e in
      let kept =
        relayed-control b code own now roles m me p h me internal v (not_any i) internal-any mine
          there in
      let counts = h.control.known.subscription_count in
      let q1 = offered b code own now roles allow_internal counts p q in
      let same : h1.control ≡ h.control = ground (arith, kept) in
      let (h', f, g, k, w) =
        place_all_lem roles m ps h1 a link q1 s u v1 is mine there at linked ne
          (ground (arith, out, ap (λ c. c.known.subscription_count) same)) in
      (
        h',
        ground (arith, relay_lem b code own now roles m me p h v, f),
        ground (arith, g, ap (λ c. c.known.subscription_count) same),
        ground (arith, k, same),
        w,
      )

  module _ (subscribed published : ℕ → String) where
    abbrev packets_of : NetworkTime → List NodeInfo → List (Packet Doc)
    packets_of time = map (info_packet b code own blank subscribed published me now time)

    AreInternal-packets_of :
        (time : NetworkTime) (is : List NodeInfo) → AreInternal (packets_of time is)
    unfolding info_packet make build
    AreInternal-packets_of time [] = tt
    AreInternal-packets_of time (i ∷ is) = (refl, AreInternal-packets_of time is)

    offered_all-packets_of :
        (roles : Roles) (counts : Counts) (time : NetworkTime) (is : List NodeInfo)
        (q : SocketBuffer Doc)
        → offered_all roles counts (packets_of time is) q
          ≡ record q { outbox = q.outbox ++ map (stamped b own) (packets_of time is) }
    offered_all-packets_of roles counts time [] q =
        ap (λ l. record q { outbox = l }) (sym (append-nil q.outbox))
    offered_all-packets_of roles counts time (i ∷ is) q =
        let p = info_packet b code own blank subscribed published me now time i in
        ap (offered_all roles counts (packets_of time is))
          (offered-info_packet roles counts time i q subscribed published)
        ∙ offered_all-packets_of roles counts time is
            (record q { outbox = q.outbox ++ stamped b own p ∷ [] })
        ∙ ap (λ l. record q { outbox = l })
            (append_assoc q.outbox (stamped b own p ∷ [])
              (map (stamped b own) (packets_of time is)))

    -- What send_info does to the link of a remote that lets internal packets through, and to the node.
    pub send_info-link :
        (include_dead : Bool) (n : NodeImpl Doc) (a link : ℕ) (q : SocketBuffer Doc)
        → IsWired b code own now n.roles n.mailman n.hub
        → lookup ℕ_discrete me n.roles ≡ some (record { topic = internal; role = control })
        → lookup ℕ_discrete (id32 me) (boxes n.mailman internal) ≡ some me
        → lookup ℕ_discrete a n.roles
          ≡ some (record { topic = any; role = remote link allow_internal })
        → lookup ℕ_discrete (id32 a) (boxes n.mailman any) ≡ some a
        → id32 me ≢ id32 a
        → lookup ℕ_discrete link n.hub.buffers ≡ some q
        → (h : Hub Doc) × (send_info b code own blank subscribed published me now include_dead n
            ≡ some (record n { hub = h }))
          × (lookup ℕ_discrete link h.buffers
              ≡ some (record q {
                outbox =
                    q.outbox
                    ++ map
                        (stamped b own)
                        (info_packets b code own blank subscribed published me now include_dead n);
              }))
          × (h.control.known ≡ n.hub.control.known)
          × IsWired b code own now n.roles n.mailman h
    unfolding send_info info_packets
    send_info-link include_dead n a link q v mine there at linked ne e =
        let clock = update_time now n.hub.control.clock in
        let start : Hub Doc = record n.hub { control = record n.hub.control { clock = clock } } in
        let infos =
          Node.send_info include_dead (Node.info subscribed published own n.name n.port n.registry)
            n.hub.control.known in
        let (h, f, g, k, w) =
          place_all_lem n.roles n.mailman (packets_of clock.network_time infos) start a link q
            subscribed published
            (rewatch-IsWired b code own now n.roles n.mailman n.hub start (λ l x y. (x, y)) v)
            (AreInternal-packets_of clock.network_time infos) mine there at linked ne e in
        (
          h,
          ground (arith, f),
          g
              ∙ ap some (
                  offered_all-packets_of n.roles n.hub.control.known.subscription_count
                    clock.network_time infos q),
          ap (λ c. c.known) k,
          w,
        )
