-- ===== src/Hub/Closing.antt =====
-- A node whose subscribers and publishers go keeps its invariant.
use daylite.Prelude.{
  ℕ, ◌≡◌, ◌≢◌, refl, ap, some, List, [], ◌∷◌, String, ℕ_discrete, String-discrete, arith, ite,
}
use daylite.Prelude.Assoc.{lookup, remove, lookup-remove}
use mathlib.Core.Path.{subst}
use daylite.Topic.{Topic, any}
use daylite.Packet.{NetworkTime, Meta, Bson}
use daylite.Mail.{Mailman, id32, boxes, leave}
use daylite.Mail.Table.{leave_lem}
use daylite.Node as Node
use daylite.Remote.{Mode}
use daylite.Peers.{Peer}
use daylite.Peers.Linked.{Apart, AreLinked, AreLinked-same}
use daylite.Hub.{InfoCode, Role, remote, control, subscribes, publishes, Post}
use daylite.Hub.Whole.{NodeImpl, unsubscribe, unadvertise}
use daylite.Hub.Steps.{IsWatched}
use daylite.Hub.Leaving.{ArePosted, stays, without, leave-IsWired}
use daylite.Hub.Sound.{IsSound}

-- The mailbox of an object that a client holds.
abbrev pub IsClients : Role → Type 0
IsClients (remote link mode) = ⊥
IsClients control = ⊥
IsClients (subscribes s) = Unit {0}
IsClients publishes = Unit {0}

-- The mailbox stands in the mailman, and is a client's.
pub record IsHeld {Doc : Type 0} (topic : Topic) (box : ℕ) (n : NodeImpl Doc) : Type 0 where
  pub role : Role
  pub clients : IsClients role
  pub posted : lookup ℕ_discrete box n.roles ≡ some (record { topic = topic; role = role })
  pub entry : lookup ℕ_discrete (id32 box) (boxes n.mailman topic) ≡ some box

no_remote : (role : Role) (link : ℕ) (mode : Mode) → IsClients role → role ≢ remote link mode
no_remote (remote l m) link mode c e = absurd c
no_remote control link mode c e = absurd c
no_remote (subscribes s) link mode c e = cc
no_remote publishes link mode c e = cc

module _ {Doc : Type 0} (topic : Topic) (box : ℕ) (n : NodeImpl Doc)
    (held : IsHeld topic box n) where
  no_peer :
      (p : Peer) (mode : Mode)
      → lookup ℕ_discrete p.box n.roles ≡ some (record { topic = any; role = remote p.link mode })
      → box ≢ p.box
  no_peer p mode e same =
      no_remote held.role p.link mode held.clients (ground (arith, same, e, held.posted))

  held-Apart :
      (ps : List Peer)
      → topic ≡ any
      → AreLinked ps n.mailman
      → ArePosted n.roles ps
      → Apart (id32 box) ps
  held-Apart [] e v w = tt
  held-Apart (p ∷ ps) e v (mode, at, w) = (
    λ same. no_peer p mode at (
        ground (
          arith,
          v.0,
          held.entry,
          ap (λ k. lookup ℕ_discrete k (boxes n.mailman any)) same,
          ap (λ t. lookup ℕ_discrete (id32 box) (boxes n.mailman t)) e,
        )),
    held-Apart ps e v.2 w,
  )

module _ (b : Bson) (code : InfoCode b.Doc) (own : ℕ) (now : NetworkTime) where
  open b use {Doc}

  held-ArePosted :
      (topic : Topic) (box : ℕ) (n : NodeImpl Doc) (ps : List Peer)
      → IsHeld topic box n
      → ArePosted n.roles ps
      → ArePosted (without b code own now n.roles box) ps
  held-ArePosted topic box n [] held v = tt
  held-ArePosted topic box n (p ∷ ps) held (mode, e, v) = (
    mode,
    stays b code own now n.roles box p.box (record { topic = any; role = remote p.link mode })
        (no_peer topic box n held p mode e) e,
    held-ArePosted topic box n ps held v,
  )

  -- The mailbox of a client's object leaves.
  leave-IsSound :
      (topic : Topic) (box : ℕ) (n : NodeImpl Doc)
      → IsSound b code own now n
      → IsHeld topic box n
      → (m : Mailman) × (leave n.mailman topic box ≡ some (box, m))
        × IsSound b code own now
            (record n { mailman = m; roles = without b code own now n.roles box })
  leave-IsSound topic box n v held =
      let (m, left, table) = leave_lem n.mailman topic box box held.entry in
      let post : Post = record { topic = topic; role = held.role } in
      (
        m,
        left,
        record {
          kept = record {
            wired =
                leave-IsWired b code own now n.roles box post n.mailman m n.hub n.hub v.kept.wired
                  held.posted left table
                  (λ a other ne e. by_role other.role (v.kept.wired.watched a other e));
            tallied = v.kept.tallied;
          };
          linked = AreLinked-same n.remotes n.mailman m (kept m table) v.linked;
          posted = held-ArePosted topic box n n.remotes held v.posted;
        },
      )
    where
      by_role :
          (r : Role)
          → IsWatched b code own now n.roles r n.hub.buffers
          → IsWatched b code own now (without b code own now n.roles box) r n.hub.buffers
      by_role (remote link mode) w = w
      by_role control w = tt
      by_role (subscribes s) w = tt
      by_role publishes w = tt

      kept :
          (m : Mailman)
          → ((u : String)
              → boxes m u
                ≡ ite
                    (String-discrete topic u)
                    (remove ℕ_discrete (id32 box) (boxes n.mailman topic))
                    (boxes n.mailman u))
          → (x : ℕ) → (Apart x n.remotes → ⊥)
          → lookup ℕ_discrete x (boxes m any) ≡ lookup ℕ_discrete x (boxes n.mailman any)
      kept m table x h = elim (String-discrete topic any) [
        | no differ ↦ ground (arith, table any, differ)
        | yes same ↦ elim (ℕ_discrete (id32 box) x) [
          | yes e ↦ absurd (
              h (
                subst (λ y. Apart y n.remotes) e
                  (held-Apart topic box n held n.remotes same v.linked v.posted)))
          | no ne ↦ ground (
            arith,
            table any,
            ap (λ t. lookup ℕ_discrete x (boxes n.mailman t)) same,
            lookup-remove ℕ_discrete (id32 box) x (boxes n.mailman topic),
          )
        ]
      ]

  module _ (blank : Meta) (subscribed published : ℕ → String) (me : ℕ) where
    pub unsubscribe-IsSound :
        (a box : ℕ) (n : NodeImpl Doc)
        → IsSound b code own now n
        → IsHeld (subscribed a) box n
        → (n' : NodeImpl Doc) × (unsubscribe b code own blank subscribed published me now a box n
            ≡ some n')
          × IsSound b code own now n'
    unfolding unsubscribe
    unsubscribe-IsSound a box n v held =
        let (m, left, sound) = leave-IsSound (subscribed a) box n v held in
        (
          record n {
            registry = Node.unregister_subscriber subscribed a n.registry;
            mailman = m;
            roles = without b code own now n.roles box;
          },
          rw (left, unsubscribe) refl,
          record { kept = sound.kept; linked = sound.linked; posted = sound.posted },
        )

    pub unadvertise-IsSound :
        (a box : ℕ) (n : NodeImpl Doc)
        → IsSound b code own now n
        → IsHeld (published a) box n
        → (n' : NodeImpl Doc) × (unadvertise b code own blank subscribed published me now a box n
            ≡ some n')
          × IsSound b code own now n'
    unfolding unadvertise
    unadvertise-IsSound a box n v held =
        let (m, left, sound) = leave-IsSound (published a) box n v held in
        (
          record n {
            registry = Node.unregister_publisher a n.registry;
            mailman = m;
            roles = without b code own now n.roles box;
          },
          rw (left, unadvertise) refl,
          record { kept = sound.kept; linked = sound.linked; posted = sound.posted },
        )
