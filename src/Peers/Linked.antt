-- ===== src/Peers/Linked.antt =====
-- The invariant of a node's links.
use mathlib.Core.Path.{subst}
use daylite.Prelude.{ℕ, ◌≡◌, ◌≢◌, refl, sym, ◌∙◌, some, List, [], ◌∷◌, ◌++◌, arith, ℕ_discrete}
use mathlib.Core.Path.{subst}
use daylite.Prelude.Assoc.{lookup, lookup-put}
use daylite.Topic.{any}
use daylite.Mail.{Mailman, id32, boxes, enter}
use daylite.Mail.Table.{boxes-enter}
use daylite.Node.Tally.{IsTallied}
use daylite.Peers.{Peer, Links, attach}

-- No remote of the list has the id.
abbrev pub Apart : ℕ → List Peer → Type 0
Apart k [] = Unit {0}
Apart k (q ∷ qs) = (k ≢ id32 q.box) × Apart k qs

-- Every remote stands in the mailman under its id, for any topic, and no two have one id.
abbrev pub AreLinked : List Peer → Mailman → Type 0
AreLinked [] m = Unit {0}
AreLinked (p ∷ ps) m =
    (lookup ℕ_discrete (id32 p.box) (boxes m any) ≡ some p.box)
    × Apart (id32 p.box) ps
    × AreLinked ps m

pub record IsLinked {Doc : Type 0} (n : Links Doc) : Type 0 where
  pub remotes_in : AreLinked n.remotes n.mailman
  pub tallied : IsTallied n.known

-- A change of the mailman that keeps the ids of the list.
pub AreLinked-same :
    (ps : List Peer) (m k : Mailman)
    → ((x : ℕ)
        → (Apart x ps → ⊥)
        → lookup ℕ_discrete x (boxes k any) ≡ lookup ℕ_discrete x (boxes m any))
    → AreLinked ps m
    → AreLinked ps k
AreLinked-same [] m k same v = tt
AreLinked-same (p ∷ ps) m k same v = (
  same (id32 p.box) (λ out. out.0 refl) ∙ v.0,
  v.1,
  AreLinked-same ps m k (λ x h. same x (λ out. h out.1)) v.2,
)

AreLinked-append :
    (ps : List Peer) (p : Peer) (m : Mailman)
    → Apart (id32 p.box) ps
    → lookup ℕ_discrete (id32 p.box) (boxes m any) ≡ some p.box
    → AreLinked ps m
    → AreLinked (ps ++ p ∷ []) m
AreLinked-append [] p m out there v = (there, tt, tt)
AreLinked-append (q ∷ ps) p m out there v =
    (v.0, apart ps v.1, AreLinked-append ps p m out.1 there v.2)
  where
    apart : (qs : List Peer) → Apart (id32 q.box) qs → Apart (id32 q.box) (qs ++ p ∷ [])
    apart [] h = (λ e. out.0 (sym e), tt)
    apart (r ∷ qs) h = (h.0, apart qs h.1)

-- A peer whose mailbox has an id that no other remote has is linked in.
pub attach-IsLinked :
    {Doc : Type 0} (p : Peer) (n : Links Doc)
    → Apart (id32 p.box) n.remotes
    → IsLinked n
    → IsLinked (attach p n)
unfolding attach
attach-IsLinked p n out v = record {
  remotes_in =
      AreLinked-append n.remotes p (enter n.mailman any p.box) out there
        (AreLinked-same n.remotes n.mailman (enter n.mailman any p.box) kept v.remotes_in);
  tallied = v.tallied;
}
  where
    there : lookup ℕ_discrete (id32 p.box) (boxes (enter n.mailman any p.box) any) ≡ some p.box
    there = ground (
      arith,
      boxes-enter n.mailman any any p.box,
      lookup-put ℕ_discrete (id32 p.box) (id32 p.box) p.box (boxes n.mailman any),
    )

    kept :
        (x : ℕ)
        → (Apart x n.remotes → ⊥)
        → lookup ℕ_discrete x (boxes (enter n.mailman any p.box) any)
          ≡ lookup ℕ_discrete x (boxes n.mailman any)
    kept x h = elim (ℕ_discrete (id32 p.box) x) [
      | yes e ↦ absurd (h (subst (λ y. Apart y n.remotes) e out))
      | no ne ↦ ground (
        arith,
        boxes-enter n.mailman any any p.box,
        lookup-put ℕ_discrete (id32 p.box) x p.box (boxes n.mailman any),
      )
    ]
