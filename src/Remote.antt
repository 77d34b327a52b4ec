-- ===== src/Remote.antt =====
-- libdaylite/src/remote_node.cpp, built without SPLAT_ENABLED: the mailbox that stands for a peer. It
-- sends what comes in on the peer's link, and lets what the link delivers out to the mailman.
pub mod Sending
pub mod Loops
pub mod Journey
pub mod Stale
mod Tests
use daylite.Prelude.{
  ℕ, ◌==◌, Bool, true, false, not, ◌&&◌, ◌||◌, Option, none, some, List, [], ◌∷◌, ◌++◌, String,
  String-discrete, ite, if◌then◌else◌,
}
use daylite.Prelude.Assoc.{lookup}
use daylite.Topic.{internal, topic_eq}
use daylite.Packet.{Bson, Packet, build}
use daylite.Node.{Counts}

pub data Mode : Type 0 where
  allow_internal block_internal : Mode

abbrev pub allows : Mode → Bool
allows allow_internal = true
allows block_internal = false

-- it == end()
abbrev pub missing : Option ℕ → Bool
missing none = true
missing (some n) = false

-- The walk over a packet's path.
unfoldable pub on_path : ℕ → List ℕ → Bool
on_path own [] = false
on_path own (id ∷ path) = id == own || on_path own path

-- Whether this node has had the packet already.
unfoldable pub found : {Doc : Type 0} → ℕ → Packet Doc → Bool
unfolding on_path
found own p = p.meta.id == own || on_path own p.meta.path

module _ (b : Bson) where
  open b use {Doc}

  -- The copy that goes out.
  unfoldable pub stamped : ℕ → Packet Doc → Packet Doc
  unfolding build
  stamped own p =
      build b (record p { meta = record p.meta { path = p.meta.path ++ own ∷ []; id = own } })

  -- remote_node::send. What is handed to the thread; `none` is the success of the two early returns.
  -- `own` is the parent's id and `counts` its `_subscription_count`.
  unfoldable pub send : ℕ → Mode → Counts → Packet Doc → Option (Packet Doc)
  unfolding stamped topic_eq lookup String-discrete
  send own mode counts p =
      if p.local_only
      then none
      else if not (allows mode && topic_eq p.meta.topic internal)
          && missing (lookup String-discrete p.meta.topic counts)
      then none
      else some (stamped own p)

-- `std::set<uint32_t>::insert`
unfoldable pub insert_id : ℕ → List ℕ → List ℕ
unfolding on_path
insert_id id ids = if on_path id ids then ids else id ∷ ids

-- remote_node::spin_update over the packets that the thread has for the link: those placed as
-- outgoing mail, in order, and `_associated_ids` after it.
unfoldable pub spin_update :
    {Doc : Type 0} → ℕ → List (Packet Doc) → List ℕ → List (Packet Doc) × List ℕ
unfolding found insert_id
spin_update own [] ids = ([], ids)
spin_update own (p ∷ ps) ids =
    let skipped = spin_update own ps ids in
    let rest = spin_update own ps (insert_id p.meta.id ids) in
    if found own p then skipped else (p ∷ rest.0, rest.1)
