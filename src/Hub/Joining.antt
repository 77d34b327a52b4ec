-- ===== src/Hub/Joining.antt =====
-- What a node announces on a link that it has just made.
use daylite.Prelude.{
  ℕ, ◌≡◌, ◌≢◌, refl, sym, false, none, some, ◌∷◌, ◌++◌, map, String, ℕ_discrete, arith,
}
use daylite.Prelude.Assoc.{lookup, lookup-put_self}
use daylite.Outcome.{done}
use daylite.Topic.{any, internal, internal-any}
use daylite.Packet.{NetworkTime, Meta, Bson}
use daylite.Thread.{SocketBuffer, fresh}
use daylite.Mail.{Mailman, id32, boxes, enter}
use daylite.Mail.Table.{boxes-enter}
use daylite.Remote.{allow_internal, stamped}
use daylite.Peers.{Peer, attach}
use daylite.Hub.{InfoCode, remote, control, subscribes}
use daylite.Node.{register_subscriber}
use daylite.Endpoint.{Subscriber}
use daylite.Hub.Whole as Whole
use daylite.Hub.Whole.{subscribe, with_links, links_of, NodeImpl, info_packets, join_daylite}
use daylite.Hub.Wired.{IsWired}
use daylite.Hub.Attached.{older, lookup_box}
use daylite.Hub.Added.{remote_post, attach-IsWired}
use daylite.Hub.Announcing.{send_info-link}

module _ (b : Bson) (code : InfoCode b.Doc) (own : ℕ) (blank : Meta) (me : ℕ)
    (now : NetworkTime) where
  open b use {Doc}

  -- The entries of the node's own mailbox and of the remote, once that is registered.
  own_entry :
      (m : Mailman) (box : ℕ)
      → lookup ℕ_discrete (id32 me) (boxes m internal) ≡ some me
      → lookup ℕ_discrete (id32 me) (boxes (enter m any box) internal) ≡ some me
  own_entry m box there =
      ground
        (arith, there, boxes-enter m any internal box, λ (e : any ≡ internal). internal-any (sym e))

  remote_entry :
      (m : Mailman) (box : ℕ)
      → lookup ℕ_discrete (id32 box) (boxes (enter m any box) any) ≡ some box
  remote_entry m box =
      ground
        (arith, boxes-enter m any any box, lookup-put_self ℕ_discrete (id32 box) box (boxes m any))

  module _ (subscribed published : ℕ → String) where
    -- A node whose mailboxes are wired gets a subscriber: no assertion fails, what it knows stays as it is,
    -- and on the link of each registered remote that lets internal packets through it queues, after what is
    -- there, its own info with the new subscriber's topic, and then those of the other nodes that it
    -- knows, less the dead.
    pub subscribe_announces :
        (a box : ℕ) (n : NodeImpl Doc) (c link : ℕ) (q : SocketBuffer Doc)
        → IsWired b code own now n.roles n.mailman n.hub
        → lookup ℕ_discrete me n.roles ≡ some (record { topic = internal; role = control })
        → lookup ℕ_discrete (id32 me) (boxes n.mailman internal) ≡ some me
        → lookup ℕ_discrete c n.roles
          ≡ some (record { topic = any; role = remote link allow_internal })
        → lookup ℕ_discrete (id32 c) (boxes n.mailman any) ≡ some c
        → id32 me ≢ id32 c
        → lookup ℕ_discrete link n.hub.buffers ≡ some q
        → let registered : NodeImpl Doc = record n {
          registry = register_subscriber subscribed a n.registry;
        } in
          (n' : NodeImpl Doc) × (subscribe b code own blank subscribed published me now a box n
            ≡ some n')
          × (n'.registry ≡ registered.registry)
          × (lookup ℕ_discrete link n'.hub.buffers
              ≡ some (record q {
                outbox =
                    q.outbox
                    ++ map (stamped b own) (
                        info_packets b code own blank subscribed published me now false registered);
              }))
          × (n'.hub.control.known ≡ n.hub.control.known)
    unfolding subscribe Whole.register_subscriber
    subscribe_announces a box n c link q v mine there at linked ne e =
        let registered : NodeImpl Doc = record n {
          registry = register_subscriber subscribed a n.registry;
        } in
        let s : Subscriber = record { topic = subscribed a; send_packed = false; husk = false } in
        let (h, f, g, k, w) =
          send_info-link b code own blank me now subscribed published false registered c link q v
            mine there at linked ne e in
        (
          record registered {
            hub = h;
            mailman = enter n.mailman s.topic box;
            roles = (box, record { topic = s.topic; role = subscribes s }) ∷ n.roles;
          },
          ground (arith, f),
          refl,
          g,
          k,
        )

    -- A node whose mailboxes are wired joins another on a link that lets internal packets through, with a
    -- new remote: no assertion fails, what the node knows stays as it is and its mailboxes stay wired, and
    -- what is queued on the link is its own info and then those of the other nodes that it knows, less the
    -- dead, each once and in order, of the time of the call and with the node on their path.
    pub join_announces :
        (p : Peer) (n : NodeImpl Doc)
        → IsWired b code own now n.roles n.mailman n.hub
        → lookup ℕ_discrete me n.roles ≡ some (record { topic = internal; role = control })
        → lookup ℕ_discrete (id32 me) (boxes n.mailman internal) ≡ some me
        → lookup ℕ_discrete p.box n.roles ≡ none
        → lookup ℕ_discrete p.link n.hub.buffers ≡ none
        → id32 me ≢ id32 p.box
        → (n' : NodeImpl Doc) × (join_daylite b code own blank subscribed published me now done p
              allow_internal n
            ≡ some (done, n'))
          × (lookup ℕ_discrete p.link n'.hub.buffers
              ≡ some (record fresh {
                outbox =
                    map
                      (stamped b own)
                      (info_packets b code own blank subscribed published me now false n);
              }))
          × (n'.hub.control.known ≡ n.hub.control.known)
          × IsWired b code own now n'.roles n'.mailman n'.hub
    unfolding join_daylite attach info_packets
    join_announces p n v mine there new unwatched ne =
        let joined : NodeImpl Doc = with_links (attach p (links_of n)) n in
        let post =
          remote_post b code own now n.roles p.box n.mailman n.hub v new p.link allow_internal in
        let more : NodeImpl Doc = record joined { roles = (p.box, post) ∷ n.roles } in
        let (w, new_buffer) =
          attach-IsWired b code own now n.roles p.box n.mailman n.hub v new p.link allow_internal
            joined.hub unwatched refl in
        let (h, f, g, k, wired) =
          send_info-link b code own blank me now subscribed published false more p.box p.link fresh
            w (older b code own now n.roles p.box post new me _ mine)
            (own_entry n.mailman p.box there) (lookup_box b code own now n.roles p.box post new)
            (remote_entry n.mailman p.box) ne new_buffer in
        (record more { hub = h }, ground (arith, f), g, k, wired)
