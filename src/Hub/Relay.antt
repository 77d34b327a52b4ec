-- ===== src/Hub/Relay.antt =====
-- What becomes of a packet that one of a node's mailboxes places as outgoing mail.
use daylite.Prelude.{
  ℕ, ◌≡◌, ◌≢◌, refl, sym, ◌∙◌, some, ℕ_discrete, arith, count, ◌==◌, if◌then◌else◌,
}
use daylite.Prelude.Assoc.{lookup}
use daylite.Outcome.{done}
use daylite.Topic.{Topic, any}
use daylite.Packet.{NetworkTime, Packet, Bson}
use daylite.Thread.{SocketBuffer}
use daylite.Mail as Mail
use daylite.Mail.{Mailman, id32, boxes, others, recipients}
use daylite.Mail.Recipients.{IsKeyed, holds, count-others}
use daylite.Remote.{Mode}
use daylite.Hub.{InfoCode, remote, Post, Roles, Hub, relay}
use daylite.Hub.Steps.{steps, offered, deliver_lem, steps-append}
use daylite.Hub.Shares.{offers, steps-other, steps-link}
use daylite.Hub.Wired.{IsWired, recipients-AreReady, others-AreBare, holds-foreign}

module _ (b : Bson) (code : InfoCode b.Doc) (own : ℕ) (now : NetworkTime) (roles : Roles) where
  open b use {Doc}

  -- Where the mailboxes are wired, no assertion fails.
  pub relay_lem :
      (m : Mailman) (sender : ℕ) (p : Packet Doc) (h : Hub Doc)
      → IsWired b code own now roles m h
      → relay b code own now roles m sender p h
        ≡ some (steps b code own now roles (recipients m sender p.meta.topic) p h, done)
  unfolding relay Mail.send
  relay_lem m sender p h v = ground (
    arith,
    deliver_lem b code own now roles (recipients m sender p.meta.topic) p h
        (recipients-AreReady b code own now roles m h v sender p.meta.topic),
  )

  -- How often each loop of `send` takes a mailbox.
  count-here :
      (topic : Topic) (sender a : ℕ) (m : Mailman)
      → IsKeyed m
      → lookup ℕ_discrete (id32 a) (boxes m topic) ≡ some a
      → count ℕ_discrete a (others (id32 sender) (boxes m topic))
        ≡ (if id32 sender == id32 a then 0 else 1)
  unfolding holds
  count-here topic sender a m keyed there =
      ground (arith, there, count-others (id32 sender) a (boxes m topic) (keyed topic))

  count-foreign :
      (topic : Topic) (sender a : ℕ) (post : Post) (m : Mailman) (h : Hub Doc)
      → IsWired b code own now roles m h
      → lookup ℕ_discrete a roles ≡ some post
      → post.topic ≢ topic
      → count ℕ_discrete a (others (id32 sender) (boxes m topic)) ≡ 0
  count-foreign topic sender a post m h v at ne = ground (
    arith,
    count-others (id32 sender) a (boxes m topic) (v.keyed topic),
    holds-foreign b code own now roles topic a post (boxes m topic) (v.placed topic) at ne,
  )

  -- What a packet that is placed leaves of the state.
  abbrev pub relayed : Mailman → ℕ → Packet Doc → Hub Doc → Hub Doc
  relayed m sender p h = steps b code own now roles (recipients m sender p.meta.topic) p h

  pub relayed-link :
      (m : Mailman) (sender : ℕ) (p : Packet Doc) (h : Hub Doc) (a link : ℕ) (mode : Mode)
      (q : SocketBuffer Doc)
      → IsWired b code own now roles m h
      → p.meta.topic ≢ any
      → lookup ℕ_discrete a roles ≡ some (record { topic = any; role = remote link mode })
      → lookup ℕ_discrete (id32 a) (boxes m any) ≡ some a
      → lookup ℕ_discrete link h.buffers ≡ some q
      → let h' = relayed m sender p h in
        lookup ℕ_discrete link h'.buffers
        ≡ some (
            if id32 sender == id32 a
            then q
            else offered b code own now roles mode h'.control.known.subscription_count p q)
  unfolding recipients offers
  relayed-link m sender p h a link mode q v ne at there e =
      let post : Post = record { topic = any; role = remote link mode } in
      let alone = v.alone a link mode post at refl in
      let firsts = others (id32 sender) (boxes m p.meta.topic) in
      let lasts = others (id32 sender) (boxes m any) in
      let between = steps b code own now roles firsts p h in
      let bare = others-AreBare b code own now roles (id32 sender) (boxes m any) (v.placed any) in
      let before =
        steps-other b code own now roles a link firsts p h alone
          (count-foreign p.meta.topic sender a post m h v at (λ f. ne (sym f))) in
      ground (
        arith,
        steps-append b code own now roles firsts lasts p h,
        steps-link b code own now roles a link mode any lasts p between q at alone bare
            (before ∙ e),
        count-here any sender a m v.keyed there,
      )

  -- Where the mailboxes are wired and a packet of a topic other than any is placed, no assertion fails;
  -- the link of each registered remote but the sender gets the packet once, as remote_node::send lets it
  -- through with the counts that the node has afterwards, and the sender's link does not get it.
  pub relay-link :
      (m : Mailman) (sender : ℕ) (p : Packet Doc) (h : Hub Doc) (a link : ℕ) (mode : Mode)
      (q : SocketBuffer Doc)
      → IsWired b code own now roles m h
      → p.meta.topic ≢ any
      → lookup ℕ_discrete a roles ≡ some (record { topic = any; role = remote link mode })
      → lookup ℕ_discrete (id32 a) (boxes m any) ≡ some a
      → lookup ℕ_discrete link h.buffers ≡ some q
      → (h' : Hub Doc) × (relay b code own now roles m sender p h ≡ some (h', done))
        × (lookup ℕ_discrete link h'.buffers
            ≡ some (
                if id32 sender == id32 a
                then q
                else offered b code own now roles mode h'.control.known.subscription_count p q))
  relay-link m sender p h a link mode q v ne at there e = (
    relayed m sender p h,
    relay_lem m sender p h v,
    relayed-link m sender p h a link mode q v ne at there e,
  )
