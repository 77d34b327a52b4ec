-- ===== src/Node/Gossip.antt =====
-- What nodes learn of each other from the infos that they pass on.
use daylite.Prelude.{
  ite, ◌∙◌, sym, ap, ℕ, ◌==◌, ◌≡◌, ◌≢◌, refl, Bool, false, ◌||◌, Option, none, some, List, [], ◌∷◌,
  ℕ_discrete, if◌then◌else◌, arith, Option-cases, Bool-cases, inl, inr,
}
use daylite.Prelude.Assoc.{lookup, put, lookup-put}
use daylite.Node.{
  NodeInfo, Known, receive_info, tally, untally, untally_old, dead, bury, bury_all, passed_on,
  send_info,
}
use daylite.Node.Tally.{Event, announces, disconnects, hear, nothing_known}

-- Each info stands under its own id, at most one under each, and none under `own`.
abbrev pub AreKeyed : ℕ → List (ℕ × NodeInfo) → Type 0
AreKeyed own [] = Unit {0}
AreKeyed own ((id, info) ∷ infos) =
    (info.id ≡ id) × (id ≢ own) × (lookup ℕ_discrete id infos ≡ none) × AreKeyed own infos

put-AreKeyed :
    (own id : ℕ) (info : NodeInfo) (infos : List (ℕ × NodeInfo))
    → info.id ≡ id
    → id ≢ own
    → AreKeyed own infos
    → AreKeyed own (put ℕ_discrete id info infos)
unfolding put lookup
put-AreKeyed own id info [] e ne v = (e, ne, refl, tt)
put-AreKeyed own id info ((j, other) ∷ infos) e ne v =
    elim (ℕ_discrete j id)
      as (λ d.
        AreKeyed own (ite d ((j, info) ∷ infos) ((j, other) ∷ put ℕ_discrete id info infos))) [
          | yes same ↦ (e ∙ sym same, v.1, v.2, v.3)
          | no differ ↦ (
            v.0,
            v.1,
            ground (arith, lookup-put ℕ_discrete id j info infos, v.2, differ),
            put-AreKeyed own id info infos e ne v.3,
          )
        ]

-- The latest info of each node after one announcement.
pub receive_info-latest :
    (own id : ℕ) (info : NodeInfo) (k : Known)
    → id ≢ own
    → lookup ℕ_discrete id (receive_info own info k).latest_info
      ≡ (if info.id == id then some info else lookup ℕ_discrete id k.latest_info)
unfolding receive_info tally untally_old untally
receive_info-latest own id info k ne =
    ground (arith, lookup-put ℕ_discrete info.id id info k.latest_info)

-- A node that gets the announcements of a list, in order.
unfoldable pub receive_all : ℕ → List NodeInfo → Known → Known
unfolding receive_info
receive_all own [] k = k
receive_all own (info ∷ infos) k = receive_all own infos (receive_info own info k)

-- The last info of a node in a list, or else `o`.
abbrev last_of : ℕ → List NodeInfo → Option NodeInfo → Option NodeInfo
last_of id [] o = o
last_of id (info ∷ infos) o = last_of id infos (if info.id == id then some info else o)

receive_all-latest :
    (own id : ℕ) (infos : List NodeInfo) (k : Known)
    → id ≢ own
    → lookup ℕ_discrete id (receive_all own infos k).latest_info
      ≡ last_of id infos (lookup ℕ_discrete id k.latest_info)
unfolding receive_all
receive_all-latest own id [] k ne = refl
receive_all-latest own id (info ∷ infos) k ne =
    receive_all-latest own id infos (receive_info own info k) ne
    ∙ ap (last_of id infos) (receive_info-latest own id info k ne)

lookup-AreKeyed :
    (own id : ℕ) (info : NodeInfo) (infos : List (ℕ × NodeInfo))
    → AreKeyed own infos
    → lookup ℕ_discrete id infos ≡ some info
    → (info.id ≡ id) × (id ≢ own)
unfolding lookup
lookup-AreKeyed own id info [] v e = absurd (ground arith)
lookup-AreKeyed own id info ((j, other) ∷ infos) v e =
    ground (arith, v.0, v.1, lookup-AreKeyed own id info infos v.3)

lookup_own :
    (own : ℕ) (infos : List (ℕ × NodeInfo))
    → AreKeyed own infos
    → lookup ℕ_discrete own infos ≡ none
lookup_own own infos v = elim (Option-cases (lookup ℕ_discrete own infos)) [
  | inl e ↦ e
  | inr (info, e) ↦ absurd ((lookup-AreKeyed own own info infos v e).1 refl)
]

receive_info-AreKeyed :
    (own : ℕ) (info : NodeInfo) (k : Known)
    → AreKeyed own k.latest_info
    → AreKeyed own (receive_info own info k).latest_info
unfolding receive_info tally untally_old untally
receive_info-AreKeyed own info k v = elim (Bool-cases (info.id == own)) [
  | inl mine ↦ rw (mine, receive_info) v
  | inr foreign ↦ elim (Option-cases (lookup ℕ_discrete info.id k.latest_info)) [
    | inl e ↦
        rw (foreign, e, receive_info)
          (put-AreKeyed own info.id info k.latest_info refl (ne foreign) v)
    | inr (old, e) ↦
        rw (foreign, e, receive_info)
          (put-AreKeyed own info.id info k.latest_info refl (ne foreign) v)
  ]
]
  where
    ne : (info.id == own) ≡ false → info.id ≢ own
    ne f e = ground arith

bury-AreKeyed :
    (own id : ℕ) (k : Known) → AreKeyed own k.latest_info → AreKeyed own (bury id k).latest_info
unfolding bury untally
bury-AreKeyed own id k v = elim (Option-cases (lookup ℕ_discrete id k.latest_info)) [
  | inl e ↦ rw (e, bury) v
  | inr (info, e) ↦
      let (same, ne) = lookup-AreKeyed own id info k.latest_info v e in
      rw (e, bury) (put-AreKeyed own id (dead info) k.latest_info same ne v)
]

bury_all-AreKeyed :
    (own : ℕ) (ids : List ℕ) (k : Known)
    → AreKeyed own k.latest_info
    → AreKeyed own (bury_all ids k).latest_info
unfolding bury_all
bury_all-AreKeyed own [] k v = v
bury_all-AreKeyed own (id ∷ ids) k v =
    bury_all-AreKeyed own ids (bury id k) (bury-AreKeyed own id k v)

hear-AreKeyed :
    (own : ℕ) (k : Known) (events : List Event)
    → AreKeyed own k.latest_info
    → AreKeyed own (hear own k events).latest_info
unfolding hear
hear-AreKeyed own k [] v = v
hear-AreKeyed own k (announces info ∷ events) v =
    hear-AreKeyed own (receive_info own info k) events (receive_info-AreKeyed own info k v)
hear-AreKeyed own k (disconnects ids ∷ events) v =
    hear-AreKeyed own (bury_all ids k) events (bury_all-AreKeyed own ids k v)

-- What a node has of another after it heard of it, or not, from a third.
abbrev pub passed : Bool → Option NodeInfo → Option NodeInfo → Option NodeInfo
passed include_dead o none = o
passed include_dead o (some info) = if include_dead || info.alive then some info else o

last_of-passed_on :
    (own id : ℕ) (include_dead : Bool) (infos : List (ℕ × NodeInfo)) (o : Option NodeInfo)
    → AreKeyed own infos
    → last_of id (passed_on include_dead infos) o
      ≡ passed include_dead o (lookup ℕ_discrete id infos)
unfolding passed_on lookup
last_of-passed_on own id include_dead [] o v = refl
last_of-passed_on own id include_dead ((j, peer) ∷ infos) o v = ground (
  arith,
  v.0,
  v.2,
  last_of-passed_on own id include_dead infos o v.3,
  last_of-passed_on own id include_dead infos (some peer) v.3,
)

-- A node that has heard of others in any history, from the start, announces itself to another: then
-- that one has, of each node but itself, the sender's own info for the sender; the info that the sender
-- has, for a node that the sender knows, unless it is dead and the dead are left out; and for any other
-- node what it had before. An info that is older than the one it had replaces that too.
pub latest-send_info :
    (peer : ℕ) (include_dead : Bool) (own : NodeInfo) (events : List Event) (k : Known) (id : ℕ)
    → id ≢ peer
    → lookup ℕ_discrete id
        (receive_all peer
          (send_info include_dead own (hear own.id nothing_known events))
          k).latest_info
      ≡ (if own.id == id
          then some own
          else passed include_dead
              (lookup ℕ_discrete id k.latest_info)
              (lookup ℕ_discrete id (hear own.id nothing_known events).latest_info))
unfolding send_info
latest-send_info peer include_dead own events k id ne =
    receive_all-latest peer id
      (own ∷ passed_on include_dead (hear own.id nothing_known events).latest_info) k ne
    ∙ last_of-passed_on own.id id include_dead (hear own.id nothing_known events).latest_info _
        keyed
    ∙ own_last
  where
    keyed : AreKeyed own.id (hear own.id nothing_known events).latest_info
    keyed = hear-AreKeyed own.id nothing_known events tt

    own_last :
        passed include_dead
          (if own.id == id then some own else lookup ℕ_discrete id k.latest_info)
          (lookup ℕ_discrete id (hear own.id nothing_known events).latest_info)
        ≡ (if own.id == id
            then some own
            else passed include_dead
                (lookup ℕ_discrete id k.latest_info)
                (lookup ℕ_discrete id (hear own.id nothing_known events).latest_info))
    own_last =
        ground (arith, lookup_own own.id (hear own.id nothing_known events).latest_info keyed)
