-- ===== src/Hub/Living.antt =====
-- The operations of a node that make or end its remotes, subscribers and publishers keep its invariant.
use mathlib.Core.Path.{subst}
use mathlib.Core.Option.{some-injective}
use daylite.Prelude.{
  ℕ, ◌≡◌, refl, sym, ◌∙◌, none, some, List, [], ◌∷◌, ◌++◌, String, ℕ_discrete, true, false,
}
use daylite.Prelude.Assoc.{lookup}
use daylite.Outcome.{VoidResult, ok, fail, done}
use daylite.Topic.{any}
use daylite.Packet.{NetworkTime, Meta, Bson}
use daylite.Mail.{enter}
use daylite.Node.{register_subscriber, register_publisher}
use daylite.Node.Tally.{nothing-IsTallied}
use daylite.Remote.{Mode, allow_internal}
use daylite.Peers as Peers
use daylite.Peers.{Peer, Links, attach}
use daylite.Peers.Linked.{IsLinked, attach-IsLinked}
use daylite.Peers.Departure.{staying, server_disconnection-IsLinked}
use daylite.Endpoint.{Subscriber}
use daylite.Hub.{InfoCode, subscribes, publishes, Roles}
use daylite.Hub.Whole as Whole
use daylite.Hub.Whole.{
  NodeImpl, constructed, links_of, with_links, drop_roles, join_daylite, server_connection,
  server_disconnection, subscribe, advertise,
}
use daylite.Hub.Attached.{lookup_box}
use daylite.Hub.Added.{
  remote_post, attach-IsWired, subscribe-IsWired, publish-IsWired, constructed-IsWired,
}
use daylite.Hub.Wired.{rewatch-IsWired}
use daylite.Hub.Leaving.{ArePosted, drop_socket-IsWired}
use daylite.Hub.Sound.{
  IsFree, AreLinked-Apart, enter-AreLinked, IsSound, older-ArePosted, send_info-IsSound,
}

ArePosted-append :
    (roles : Roles) (ps : List Peer) (p : Peer)
    → ArePosted roles ps
    → ArePosted roles (p ∷ [])
    → ArePosted roles (ps ++ p ∷ [])
ArePosted-append roles [] p v w = w
ArePosted-append roles (q ∷ ps) p (mode, e, v) w = (mode, e, ArePosted-append roles ps p v w)

module _ (b : Bson) (code : InfoCode b.Doc) (own : ℕ) (now : NetworkTime) where
  open b use {Doc}

  pub constructed-IsSound :
      (name : String) (me : ℕ) (start : NetworkTime)
      → IsSound b code own now (constructed name me start)
  unfolding constructed
  constructed-IsSound name me start = record {
    kept = record {
      wired = constructed-IsWired b code own now name me start;
      tallied = nothing-IsTallied;
    };
    linked = tt;
    posted = tt;
  }

  dropped-IsSound :
      (socket : ℕ) (n : NodeImpl Doc)
      → IsSound b code own now n
      → (l : Links Doc) × (Peers.server_disconnection socket (links_of n) ≡ some l)
        × IsSound b code own now
            (record (with_links l n) { roles = drop_roles socket n.remotes n.roles })
  unfolding Peers.server_disconnection
  dropped-IsSound socket n v =
      let (l, e, w, posted) =
        drop_socket-IsWired b code own now socket n.remotes (links_of n) n.roles n.hub v.kept.wired
          v.linked v.kept.tallied v.posted in
      let left : Links Doc = record l { remotes = staying socket n.remotes } in
      let ends : Peers.server_disconnection socket (links_of n) ≡ some left =
        rw (e, Peers.server_disconnection) refl in
      let (l', f, same, linked, ids, known, topics) =
        server_disconnection-IsLinked socket (links_of n)
          (record { remotes_in = v.linked; tallied = v.kept.tallied }) in
      let linked' : IsLinked left = subst IsLinked (some-injective l' left (sym f ∙ ends)) linked in
      let less : NodeImpl Doc = record (with_links left n) {
        roles = drop_roles socket n.remotes n.roles;
      } in
      (
        left,
        ends,
        record {
          kept = record {
            wired =
                rewatch-IsWired b code own now less.roles less.mailman
                  (record n.hub { buffers = l.buffers }) less.hub (λ link q x. (q, x)) w;
            tallied = linked'.tallied;
          };
          linked = linked'.remotes_in;
          posted = posted;
        },
      )

  module _ (blank : Meta) (subscribed published : ℕ → String) (me : ℕ) where
    pub join_daylite-IsSound :
        (opened : VoidResult) (p : Peer) (mode : Mode) (n : NodeImpl Doc)
        → IsSound b code own now n
        → IsFree p.box n
        → lookup ℕ_discrete p.link n.hub.buffers ≡ none
        → (r : VoidResult) × (n' : NodeImpl Doc) × (join_daylite b code own blank subscribed
              published me now opened p mode n
            ≡ some (r, n'))
          × IsSound b code own now n'
    unfolding join_daylite attach
    join_daylite-IsSound (fail m c) p mode n v free unwatched = (fail m c, n, refl, v)
    join_daylite-IsSound (ok a m c) p mode n v free unwatched =
        let joined : NodeImpl Doc = with_links (attach p (links_of n)) n in
        let post =
          remote_post b code own now n.roles p.box n.mailman n.hub v.kept.wired free.address p.link
            mode in
        let roles = (p.box, post) ∷ n.roles in
        let more : NodeImpl Doc = record joined { roles = roles } in
        let (w, watched) =
          attach-IsWired b code own now n.roles p.box n.mailman n.hub v.kept.wired free.address
            p.link mode joined.hub unwatched refl in
        let sound : IsSound b code own now more = record {
          kept = record { wired = w; tallied = v.kept.tallied };
          linked =
              (attach-IsLinked p (links_of n)
                (AreLinked-Apart p.box n.remotes n.mailman (free.id any) v.linked)
                (record { remotes_in = v.linked; tallied = v.kept.tallied })).remotes_in;
          posted =
              ArePosted-append roles n.remotes p
                (older-ArePosted b code own now n.roles p.box post n.remotes free.address v.posted)
                (mode, lookup_box b code own now n.roles p.box post free.address, tt);
        } in
        let (h, e, k) =
          send_info-IsSound b code own now blank subscribed published me false more sound in
        (done, record more { hub = h }, rw (e, join_daylite) refl, k)

    pub server_connection-IsSound :
        (opened : VoidResult) (p : Peer) (n : NodeImpl Doc)
        → IsSound b code own now n
        → IsFree p.box n
        → lookup ℕ_discrete p.link n.hub.buffers ≡ none
        → (n' : NodeImpl Doc) × (server_connection b code own blank subscribed published me now
              opened p n
            ≡ some n')
          × IsSound b code own now n'
    unfolding server_connection
    server_connection-IsSound opened p n v free unwatched =
        let (r, n', e, w) = join_daylite-IsSound opened p allow_internal n v free unwatched in
        (n', rw (e, server_connection) refl, w)

    pub server_disconnection-IsSound :
        (socket : ℕ) (n : NodeImpl Doc)
        → IsSound b code own now n
        → (n' : NodeImpl Doc) × (server_disconnection b code own blank subscribed published me now
              socket n
            ≡ some n')
          × IsSound b code own now n'
    unfolding server_disconnection
    server_disconnection-IsSound socket n v =
        let (l, ends, sound) = dropped-IsSound socket n v in
        let less : NodeImpl Doc = record (with_links l n) {
          roles = drop_roles socket n.remotes n.roles;
        } in
        let (h, g, k) =
          send_info-IsSound b code own now blank subscribed published me true less sound in
        (record less { hub = h }, rw (ends, server_disconnection) g, k)

    pub subscribe-IsSound :
        (a box : ℕ) (n : NodeImpl Doc)
        → IsSound b code own now n
        → IsFree box n
        → (n' : NodeImpl Doc) × (subscribe b code own blank subscribed published me now a box n
            ≡ some n')
          × IsSound b code own now n'
    unfolding subscribe Whole.register_subscriber
    subscribe-IsSound a box n v free =
        let registered : NodeImpl Doc = record n {
          registry = register_subscriber subscribed a n.registry;
        } in
        let s : Subscriber = record { topic = subscribed a; send_packed = false; husk = false } in
        let (h, e, k) =
          send_info-IsSound b code own now blank subscribed published me false registered
            (record { kept = v.kept; linked = v.linked; posted = v.posted }) in
        (
          record registered {
            hub = h;
            mailman = enter n.mailman s.topic box;
            roles = (box, record { topic = s.topic; role = subscribes s }) ∷ n.roles;
          },
          rw (e, subscribe, Whole.register_subscriber) refl,
          record {
            kept = record {
              wired =
                  subscribe-IsWired b code own now n.roles box n.mailman h k.kept.wired free.address
                    s.topic s;
              tallied = k.kept.tallied;
            };
            linked = enter-AreLinked box s.topic n.remotes n.mailman (free.id any) v.linked;
            posted =
                older-ArePosted b code own now n.roles box
                  (record { topic = s.topic; role = subscribes s }) n.remotes free.address v.posted;
          },
        )

    pub advertise-IsSound :
        (a box : ℕ) (n : NodeImpl Doc)
        → IsSound b code own now n
        → IsFree box n
        → (n' : NodeImpl Doc) × (advertise b code own blank subscribed published me now a box n
            ≡ some n')
          × IsSound b code own now n'
    unfolding advertise Whole.register_publisher
    advertise-IsSound a box n v free =
        let registered : NodeImpl Doc = record n { registry = register_publisher a n.registry } in
        let (h, e, k) =
          send_info-IsSound b code own now blank subscribed published me false registered
            (record { kept = v.kept; linked = v.linked; posted = v.posted }) in
        (
          record registered {
            hub = h;
            mailman = enter n.mailman (published a) box;
            roles = (box, record { topic = published a; role = publishes }) ∷ n.roles;
          },
          rw (e, advertise, Whole.register_publisher) refl,
          record {
            kept = record {
              wired =
                  publish-IsWired b code own now n.roles box n.mailman h k.kept.wired free.address
                    (published a);
              tallied = k.kept.tallied;
            };
            linked = enter-AreLinked box (published a) n.remotes n.mailman (free.id any) v.linked;
            posted =
                older-ArePosted b code own now n.roles box
                  (record { topic = published a; role = publishes }) n.remotes free.address
                  v.posted;
          },
        )
