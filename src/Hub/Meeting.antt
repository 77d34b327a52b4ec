-- ===== src/Hub/Meeting.antt =====
-- One node joins another, and that one takes in what it is told.
use mathlib.Core.Path.{subst}
use mathlib.Core.Option.{some-injective}
use daylite.Prelude.{
  ℕ, suc, ◌≡◌, ◌≢◌, refl, sym, ap, ◌∙◌, Bool, false, none, some, List, [], ◌∷◌, ◌++◌, map, String,
  ℕ_discrete, arith, length, ◌==◌, if◌then◌else◌,
}
use daylite.Prelude.Assoc.{lookup}
use daylite.Topic.{any, internal}
use daylite.Packet.{NetworkTime, Meta, Packet, Bson, make, parse}
use daylite.Packet.RoundTrip.{parse-build}
use daylite.Remote.{Mode, allow_internal, stamped, on_path, found}
use daylite.Node.{NodeInfo, Known}
use daylite.Node.Control.{info_or}
use daylite.Node as Node
use daylite.Node.Tally.{Event, hear, nothing_known}
use daylite.Node.Gossip.{passed, receive_all, latest-send_info}
use daylite.Outcome.{VoidResult, done}
use daylite.Clock.{update_time}
use daylite.Thread.{SocketBuffer}
use daylite.Mail.{Mailman, id32, boxes}
use daylite.Peers.{Peer}
use daylite.Hub.{InfoCode, remote, control, Roles, Hub, take_mail}
use daylite.Hub.Whole.{info_packet, info_packets, NodeImpl, join_daylite}
use daylite.Hub.Wired.{IsWired}
use daylite.Hub.Joining.{join_announces}
use daylite.Hub.Hearing.{AreNews, info_of, take_mail-receive_all}

-- What the other end reads of the packets that were sent, whatever its memory held.
module _ (b : Bson) where
  open b use {Doc}

  abbrev pub AreParsed : Meta → Bool → List (Packet Doc) → List (Packet Doc) → Type 0
  AreParsed blank stale [] [] = Unit {0}
  AreParsed blank stale [] (r ∷ rs) = ⊥
  AreParsed blank stale (q ∷ qs) [] = ⊥
  AreParsed blank stale (q ∷ qs) (r ∷ rs) =
      (d : Doc) × (q.packed ≡ some d)
      × (parse b blank stale d ≡ some r)
      × AreParsed blank stale qs rs

module _ (b : Bson) (code : InfoCode b.Doc) (own : ℕ) (blank : Meta)
    (subscribed published : ℕ → String) (me : ℕ) (now time : NetworkTime) where
  open b use {Doc}

  abbrev sent : NodeInfo → Packet Doc
  sent i = stamped b own (info_packet b code own blank subscribed published me now time i)

  -- A packet of an info is internal, comes from the node alone, and holds the info.
  parsed-sent :
      (peer : ℕ) (blank' : Meta) (stale : Bool) (i : NodeInfo) (d : Doc) (r : Packet Doc)
      → blank.path ≡ []
      → own ≢ peer
      → (sent i).packed ≡ some d
      → parse b blank' stale d ≡ some r
      → (r.meta.topic ≡ internal)
        × (found peer r ≡ false)
        × (info_or code.blank (code.unbind r.msg) ≡ i)
  unfolding info_packet make stamped found on_path
  parsed-sent peer blank' stale i d r empty ne packed parsed =
      let p : Packet Doc = record {
        meta = record blank {
          topic = internal;
          stamp = time;
          droppable = false;
          path = blank.path ++ own ∷ [];
          id = own;
        };
        msg = some (code.bind i);
        packed = none;
        local_only = false;
      } in
      let same = some-injective _ _ (sym parsed ∙ parse-build b blank' stale p d packed) in
      (
        ap (λ (x : Packet Doc). x.meta.topic) same,
        ground (
          arith,
          empty,
          ap (λ (x : Packet Doc). x.meta.id) same,
          ap (λ (x : Packet Doc). x.meta.path) same,
        ),
        ap (λ (x : Packet Doc). info_or code.blank (code.unbind x.msg)) same
            ∙ ap (info_or code.blank) (code.unbind-bind i),
      )

  parsed-all :
      (peer : ℕ) (now' : NetworkTime) (roles : Roles) (blank' : Meta) (stale : Bool)
      (is : List NodeInfo) (rs : List (Packet Doc))
      → blank.path ≡ []
      → own ≢ peer
      → AreParsed b blank' stale
          (map
            (stamped b own)
            (map (info_packet b code own blank subscribed published me now time) is))
          rs
      → AreNews b code peer now' roles rs × (map (info_of b code peer now' roles) rs ≡ is)
  parsed-all peer now' roles blank' stale [] [] empty ne v = (tt, refl)
  parsed-all peer now' roles blank' stale [] (r ∷ rs) empty ne v = absurd v
  parsed-all peer now' roles blank' stale (i ∷ is) [] empty ne v = absurd v
  parsed-all peer now' roles blank' stale (i ∷ is) (r ∷ rs) empty ne (d, packed, parsed, v) =
      let (topic, new, info) = parsed-sent peer blank' stale i d r empty ne packed parsed in
      let (news, infos) = parsed-all peer now' roles blank' stale is rs empty ne v in
      ((topic, new, news), ground (arith, info, infos))

-- Two nodes, `own` and `peer`, each with its mailboxes.
module _ (b : Bson) (code : InfoCode b.Doc) (blank blank' : Meta) (stale : Bool)
    (subscribed published : ℕ → String) (own me : ℕ) (now : NetworkTime) (p : Peer) (peer me' : ℕ)
    (now' : NetworkTime) (roles : Roles) (m : Mailman) (a link : ℕ) (mode : Mode) where
  open b use {Doc}

  -- A node `own`, whose mailboxes are wired and which has heard of others in any history, joins a node
  -- `peer` with a new remote on a link that lets internal packets through, and `peer`, whose mailboxes are
  -- wired too, reads at its end of the link what parses of the documents queued there. Then spin_update of
  -- the remote at that end comes to an end with no failed assertion, and `peer` has of each node but itself
  -- the info of `own`, for `own`; the info that `own` has, for a node that `own` knows to be alive; and for
  -- any other node what it had before.
  pub join-take_mail :
      (n n' : NodeImpl Doc) (q q' : SocketBuffer Doc) (events : List Event) (h : Hub Doc)
      (ids : List ℕ) (id : ℕ)
      → IsWired b code own now n.roles n.mailman n.hub
      → lookup ℕ_discrete me n.roles ≡ some (record { topic = internal; role = control })
      → lookup ℕ_discrete (id32 me) (boxes n.mailman internal) ≡ some me
      → lookup ℕ_discrete p.box n.roles ≡ none
      → lookup ℕ_discrete p.link n.hub.buffers ≡ none
      → id32 me ≢ id32 p.box
      → n.hub.control.known ≡ hear own nothing_known events
      → join_daylite b code own blank subscribed published me now done p allow_internal n
        ≡ some (done, n')
      → lookup ℕ_discrete p.link n'.hub.buffers ≡ some q
      → blank.path ≡ []
      → own ≢ peer
      → IsWired b code peer now' roles m h
      → lookup ℕ_discrete me' roles ≡ some (record { topic = internal; role = control })
      → lookup ℕ_discrete (id32 me') (boxes m internal) ≡ some me'
      → lookup ℕ_discrete a roles ≡ some (record { topic = any; role = remote link mode })
      → lookup ℕ_discrete (id32 a) (boxes m any) ≡ some a
      → id32 a ≢ id32 me'
      → lookup ℕ_discrete link h.buffers ≡ some q'
      → AreParsed b blank' stale q.outbox q'.inbox
      → id ≢ peer
      → (h' : Hub Doc) × (ids' : List ℕ) × (take_mail b code peer now'
            (suc (length q'.inbox))
            roles
            m
            a
            link
            ids
            h
          ≡ some (ids', h'))
        × (lookup ℕ_discrete id h'.control.known.latest_info ≡ (
            if own == id
            then some (Node.info subscribed published own n.name n.port n.registry)
            else passed false
                (lookup ℕ_discrete id h.control.known.latest_info)
                (lookup ℕ_discrete id n.hub.control.known.latest_info)))
  unfolding info_packets Node.info
  join-take_mail n n' q q' events h ids id v mine there new unwatched apart heard joined queued
        empty differ w mine' there' at linked apart' watched parsed ne =
      let mine_info = Node.info subscribed published own n.name n.port n.registry in
      let infos = Node.send_info false mine_info n.hub.control.known in
      let clock = update_time now n.hub.control.clock in
      let (n1, same, out, known1, wired1) =
        join_announces b code own blank me now subscribed published p n v mine there new unwatched
          apart in
      let to_n1 = some-injective _ _ (sym joined ∙ same) in
      let outbox = some-injective _ _ (
        sym queued
        ∙ ap (λ (x : VoidResult × NodeImpl Doc). lookup ℕ_discrete p.link x.1.hub.buffers) to_n1
        ∙ out) in
      let (news, are) =
        parsed-all b code own blank subscribed published me now clock.network_time peer now' roles
          blank' stale infos q'.inbox empty differ
          (subst (λ (x : SocketBuffer Doc). AreParsed b blank' stale x.outbox q'.inbox) outbox
            parsed) in
      let (h', ids', took, learned, left, wired) =
        take_mail-receive_all b code peer now' roles q'.inbox m me' a link mode ids h q' w news
          mine' there' at linked apart' watched refl in
      (
        h',
        ids',
        took,
        ap (λ (k : Known). lookup ℕ_discrete id k.latest_info)
              (learned
                ∙ ap (λ l. receive_all peer l h.control.known)
                    (are ∙ ap (Node.send_info false mine_info) heard))
            ∙ latest-send_info peer false mine_info events h.control.known id ne
            ∙ ap
                (λ (k : Known).
                  if own == id
                  then some mine_info
                  else passed false (lookup ℕ_discrete id h.control.known.latest_info)
                      (lookup ℕ_discrete id k.latest_info))
                (sym heard),
      )
