-- ===== src/Hub/Sound.antt =====
-- The invariant of a whole node, and that each of its operations ends and keeps it.
use mathlib.Core.Path.{subst}
use daylite.Prelude.{
  ℕ, ◌≡◌, refl, ap, none, some, List, [], ◌∷◌, String, ℕ_discrete, arith, Option-cases, Bool-cases,
  inl, inr, Bool, ◌==◌,
}
use daylite.Prelude.Assoc.{lookup, lookup-put}
use daylite.Topic.{Topic, any}
use daylite.Packet.{NetworkTime, Meta, Packet, Bson}
use daylite.Thread.{Weather, pass, pass_all}
use daylite.Thread.Sockets.{lookup-pass_all}
use daylite.Clock.{update_time}
use daylite.Mail.{Mailman, id32, boxes, enter}
use daylite.Mail.Table.{boxes-enter}
use daylite.Peers.{Peer}
use daylite.Peers.Linked.{Apart, AreLinked, AreLinked-same}
use daylite.Hub.{InfoCode, remote, Post, Roles, Hub}
use daylite.Hub.Whole.{
  NodeImpl, find_remote, set_ids, info_packets, send_info, place, spin_remote, thread_round,
}
use daylite.Hub.Wired.{rewatch-IsWired}
use daylite.Hub.Attached.{older}
use daylite.Hub.Kept.{IsKept, relay-IsKept, place_all-IsKept, take_mail-IsKept}
use daylite.Hub.Leaving.{ArePosted}

-- No mailbox has the address, and none that is registered its id.
pub record IsFree {Doc : Type 0} (box : ℕ) (n : NodeImpl Doc) : Type 0 where
  pub address : lookup ℕ_discrete box n.roles ≡ none
  pub id : (topic : Topic) → lookup ℕ_discrete (id32 box) (boxes n.mailman topic) ≡ none

pub AreLinked-Apart :
    (box : ℕ) (ps : List Peer) (m : Mailman)
    → lookup ℕ_discrete (id32 box) (boxes m any) ≡ none
    → AreLinked ps m
    → Apart (id32 box) ps
AreLinked-Apart box [] m free v = tt
AreLinked-Apart box (p ∷ ps) m free v = (
  λ e. absurd (ground (arith, ap (λ k. lookup ℕ_discrete k (boxes m any)) e, free, v.0)),
  AreLinked-Apart box ps m free v.2,
)

-- A mailbox that is registered leaves the remotes linked.
pub enter-AreLinked :
    (box : ℕ) (topic : Topic) (ps : List Peer) (m : Mailman)
    → lookup ℕ_discrete (id32 box) (boxes m any) ≡ none
    → AreLinked ps m
    → AreLinked ps (enter m topic box)
enter-AreLinked box topic ps m free v = AreLinked-same ps m (enter m topic box) kept v
  where
    kept :
        (x : ℕ)
        → (Apart x ps → ⊥)
        → lookup ℕ_discrete x (boxes (enter m topic box) any) ≡ lookup ℕ_discrete x (boxes m any)
    kept x h = elim (ℕ_discrete (id32 box) x) [
      | yes e ↦ absurd (h (subst (λ y. Apart y ps) e (AreLinked-Apart box ps m free v)))
      | no ne ↦ ground (
        arith,
        boxes-enter m topic any box,
        ap (λ t. lookup ℕ_discrete x (boxes m t)),
        lookup-put ℕ_discrete (id32 box) x box (boxes m topic),
      )
    ]

set_ids-AreLinked :
    (box : ℕ) (ids : List ℕ) (ps : List Peer) (m : Mailman)
    → AreLinked ps m
    → AreLinked (set_ids box ids ps) m
unfolding set_ids
set_ids-AreLinked box ids [] m v = tt
set_ids-AreLinked box ids (p ∷ ps) m v = elim (Bool-cases (p.box == box)) [
  | inl here ↦ rw (here, set_ids) (v.0, apart ps v.1, set_ids-AreLinked box ids ps m v.2)
  | inr else_where ↦
      rw (else_where, set_ids) (v.0, apart ps v.1, set_ids-AreLinked box ids ps m v.2)
]
  where
    apart : (qs : List Peer) → Apart (id32 p.box) qs → Apart (id32 p.box) (set_ids box ids qs)
    apart [] out = tt
    apart (q ∷ qs) out = elim (Bool-cases (q.box == box)) [
      | inl here ↦ rw (here, set_ids) (out.0, apart qs out.1)
      | inr else_where ↦ rw (else_where, set_ids) (out.0, apart qs out.1)
    ]

set_ids-ArePosted :
    (box : ℕ) (ids : List ℕ) (roles : Roles) (ps : List Peer)
    → ArePosted roles ps
    → ArePosted roles (set_ids box ids ps)
unfolding set_ids
set_ids-ArePosted box ids roles [] v = tt
set_ids-ArePosted box ids roles (p ∷ ps) (mode, e, v) = elim (Bool-cases (p.box == box)) [
  | inl here ↦ rw (here, set_ids) (mode, e, set_ids-ArePosted box ids roles ps v)
  | inr else_where ↦ rw (else_where, set_ids) (mode, e, set_ids-ArePosted box ids roles ps v)
]

find_remote-ArePosted :
    (box : ℕ) (roles : Roles) (ps : List Peer) (p : Peer)
    → ArePosted roles ps
    → find_remote box ps ≡ some p
    → ArePosted roles (p ∷ [])
unfolding find_remote
find_remote-ArePosted box roles [] p v e = cc
find_remote-ArePosted box roles (q ∷ ps) p (mode, at, v) e = elim (Bool-cases (q.box == box)) [
  | inl here ↦ (mode, ground (arith, e, here, at), tt)
  | inr else_where ↦ find_remote-ArePosted box roles ps p v (ground (arith, e, else_where))
]

module _ (b : Bson) (code : InfoCode b.Doc) (own : ℕ) (now : NetworkTime) where
  open b use {Doc}

  -- The mailboxes are wired, the counters are those of the infos, and the remotes stand in the mailman,
  -- each under its own id and with the mailbox that is its own.
  pub record IsSound (n : NodeImpl Doc) : Type 0 where
    pub kept : IsKept b code own now n.roles n.mailman n.hub
    pub linked : AreLinked n.remotes n.mailman
    pub posted : ArePosted n.roles n.remotes

  pub older-ArePosted :
      (roles : Roles) (box : ℕ) (post : Post) (ps : List Peer)
      → lookup ℕ_discrete box roles ≡ none
      → ArePosted roles ps
      → ArePosted ((box, post) ∷ roles) ps
  older-ArePosted roles box post [] new v = tt
  older-ArePosted roles box post (p ∷ ps) new (mode, e, v) = (
    mode,
    older b code own now roles box post new p.box
        (record { topic = any; role = remote p.link mode }) e,
    older-ArePosted roles box post ps new v,
  )

  module _ (blank : Meta) (subscribed published : ℕ → String) (me : ℕ) where
    pub send_info-IsSound :
        (include_dead : Bool) (n : NodeImpl Doc)
        → IsSound n
        → (h : Hub Doc) × (send_info b code own blank subscribed published me now include_dead n
            ≡ some (record n { hub = h }))
          × IsSound (record n { hub = h })
    unfolding send_info
    send_info-IsSound include_dead n v =
        let start : Hub Doc = record n.hub {
          control = record n.hub.control { clock = update_time now n.hub.control.clock };
        } in
        let (h, e, k) =
          place_all-IsKept b code own now n.roles blank subscribed published me n.mailman
            (info_packets b code own blank subscribed published me now include_dead n) start
            (record {
              wired =
                  rewatch-IsWired b code own now n.roles n.mailman n.hub start (λ l q f. (q, f))
                    v.kept.wired;
              tallied = v.kept.tallied;
            }) in
        (h, rw (e, send_info) refl, record { kept = k; linked = v.linked; posted = v.posted })

    pub place-IsSound :
        (box : ℕ) (p : Packet Doc) (n : NodeImpl Doc)
        → IsSound n
        → (n' : NodeImpl Doc) × (place b code own blank subscribed published me now box p n
            ≡ some n')
          × IsSound n'
    unfolding place
    place-IsSound box p n v =
        let (h, e, k) = relay-IsKept b code own now n.roles n.mailman box p n.hub v.kept in
        (
          record n { hub = h },
          rw (e, place) refl,
          record { kept = k; linked = v.linked; posted = v.posted },
        )

    pub spin_remote-IsSound :
        (rounds box : ℕ) (n : NodeImpl Doc)
        → IsSound n
        → (n' : NodeImpl Doc) × (spin_remote b code own blank subscribed published me now rounds box
              n
            ≡ some n')
          × IsSound n'
    unfolding spin_remote
    spin_remote-IsSound rounds box n v = elim (Option-cases (find_remote box n.remotes)) [
      | inl nobody ↦ (n, rw (nobody, spin_remote) refl, v)
      | inr (p, found) ↦
          let (mode, at, end) = find_remote-ArePosted box n.roles n.remotes p v.posted found in
          let (h, ids, e, k) =
            take_mail-IsKept b code own now n.roles rounds n.mailman p.box p.link p.associated_ids
              n.hub
              (v.kept.wired.watched p.box (record { topic = any; role = remote p.link mode }) at)
              v.kept in
          (
            record n { remotes = set_ids p.box ids n.remotes; hub = h },
            rw (found, e, spin_remote) refl,
            record {
              kept = k;
              linked = set_ids-AreLinked p.box ids n.remotes n.mailman v.linked;
              posted = set_ids-ArePosted p.box ids n.roles n.remotes v.posted;
            },
          )
    ]

    pub thread_round-IsSound :
        (w : ℕ → Weather Doc) (n : NodeImpl Doc)
        → IsSound n
        → IsSound (thread_round b code own blank subscribed published me now w n)
    unfolding thread_round
    thread_round-IsSound w n v = record {
      kept = record {
        wired =
            rewatch-IsWired b code own now n.roles n.mailman n.hub
              (record n.hub { buffers = (pass_all w n.hub.buffers).1 })
              (λ link q e. ((pass (w link) q).1, (lookup-pass_all w link q n.hub.buffers e).1))
              v.kept.wired;
        tallied = v.kept.tallied;
      };
      linked = v.linked;
      posted = v.posted;
    }
