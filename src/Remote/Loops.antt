-- ===== src/Remote/Loops.antt =====
-- What remote_node::spin_update lets in, and the ids that it keeps.
use daylite.Prelude.{
  ℕ, ◌==◌, ◌≡◌, refl, ap, ◌||◌, List, [], ◌∷◌, ◌++◌, arith, if◌then◌else◌, Bool-cases, inl, inr,
}
use daylite.Packet.{Packet}
use daylite.Remote.{on_path, found, insert_id, spin_update}

pub on_path-append :
    (own x : ℕ) (path : List ℕ) → on_path own (path ++ x ∷ []) ≡ (on_path own path || x == own)
unfolding on_path
on_path-append own x [] = ground arith
on_path-append own x (y ∷ path) = ground (arith, on_path-append own x path)

on_path-insert_id :
    (x id : ℕ) (ids : List ℕ) → on_path x (insert_id id ids) ≡ (id == x || on_path x ids)
unfolding insert_id on_path
on_path-insert_id x id ids = ground arith

module _ {Doc : Type 0} (own : ℕ) where
  -- The packets that the node has not had.
  pub unseen : List (Packet Doc) → List (Packet Doc)
  unseen [] = []
  unseen (p ∷ ps) = if found own p then unseen ps else p ∷ unseen ps

  pub ids_of : List (Packet Doc) → List ℕ
  ids_of [] = []
  ids_of (p ∷ ps) = p.meta.id ∷ ids_of ps

  -- `spin_update` places exactly the packets that the node has not had, in order, and adds exactly
  -- the ids of the nodes that they came from to those associated with the link.
  pub spin_update_lem :
      (ps : List (Packet Doc)) (ids : List ℕ)
      → ((spin_update own ps ids).0 ≡ unseen ps)
        × ((x : ℕ)
            → on_path x (spin_update own ps ids).1
              ≡ (on_path x (ids_of (unseen ps)) || on_path x ids))
  unfolding spin_update unseen ids_of
  spin_update_lem [] ids = (refl, λ x. unfold on_path in refl)
  spin_update_lem (p ∷ ps) ids = elim (Bool-cases (found own p)) [
    | inl had ↦ rw (had, spin_update, unseen, ids_of) (spin_update_lem ps ids)
    | inr new ↦
        rw (new, spin_update, unseen, ids_of)
          (
            ap (◌∷◌ p) (spin_update_lem ps (insert_id p.meta.id ids)).0,
            λ x. ground (
              arith,
              (spin_update_lem ps (insert_id p.meta.id ids)).1 x,
              on_path-insert_id x p.meta.id ids,
            ),
          )
  ]
