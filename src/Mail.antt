-- ===== src/Mail.antt =====
-- libdaylite/src/mailbox.cpp and mailman.cpp. A mailbox is named by its address, and the mailman's
-- table holds addresses; `P` is the type of packets, and `S` the state that the callbacks work on.
-- A null pointer that is followed, and an assertion that fails, are `none`.
pub mod Table
pub mod Recipients
pub mod Collision
mod Tests
use daylite.Prelude.{
  ℕ, zero, suc, ◌+◌, ◌%◌, ◌^◌, ◌==◌, Bool, true, false, Option, none, some, List, [], ◌∷◌, ◌++◌,
  String, String-discrete, ℕ_discrete, ite, if◌then◌else◌,
}
use daylite.Prelude.Assoc.{lookup, put, remove}
use daylite.Outcome.{VoidResult, ok, fail, done}
use daylite.Topic.{any}

-- The state after a callback, and what it returned.
abbrev pub Callback : Type 0 → Type 0 → Type 0
Callback P S = P → S → S × VoidResult

pub record Mailbox (P S : Type 0) : Type 0 where
  pub topic : String
  pub incoming : Option (Callback P S)
  pub outgoing : Option (Callback P S)

-- `_mailboxes`: by topic, then by id. The ids are kept as `uint32_t`.
abbrev pub Mailman : Type 0
Mailman = List (String × List (ℕ × ℕ))

module _ {P S : Type 0} where
  -- The constructor of a mailbox.
  abbrev pub mailbox : String → Option (Callback P S) → Option (Callback P S) → Mailbox P S
  mailbox topic incoming outgoing = record {
    topic = topic;
    incoming = incoming;
    outgoing = outgoing;
  }

  unfoldable pub set_incoming_mail_callback :
      Mailbox P S → Option (Callback P S) → VoidResult × Mailbox P S
  set_incoming_mail_callback m f = (done, record m { incoming = f })

  unfoldable pub set_outgoing_mail_callback :
      Mailbox P S → Option (Callback P S) → VoidResult × Mailbox P S
  set_outgoing_mail_callback m f = (done, record m { outgoing = f })

  call : Option (Callback P S) → P → S → S × VoidResult
  call none p s = (s, done)
  call (some f) p s = f p s

  unfoldable pub place_incoming_mail : Mailbox P S → P → S → S × VoidResult
  unfolding call
  place_incoming_mail m = call m.incoming

  unfoldable pub place_outgoing_mail : Mailbox P S → P → S → S × VoidResult
  unfolding call
  place_outgoing_mail m = call m.outgoing

-- `uint32_t`
abbrev pub id32 : ℕ → ℕ
id32 a = a % 2 ^ 32

-- operator[] of the outer table.
abbrev pub at_topic : Option (List (ℕ × ℕ)) → List (ℕ × ℕ)
at_topic none = []
at_topic (some boxes) = boxes

unfoldable pub boxes : Mailman → String → List (ℕ × ℕ)
boxes m t = at_topic (lookup String-discrete t m)

-- The table's part of mailman::register_mailbox.
unfoldable pub enter : Mailman → String → ℕ → Mailman
unfolding boxes
enter m topic address =
    put String-discrete topic (put ℕ_discrete (id32 address) address (boxes m topic)) m

-- The table with the entries of a topic given anew: a topic with no mailbox left is removed.
unfoldable pub keep_boxes : Mailman → String → List (ℕ × ℕ) → Mailman
keep_boxes m topic [] = remove String-discrete topic m
keep_boxes m topic (b ∷ bs) = put String-discrete topic (b ∷ bs) m

-- The table's part of mailman::unregister_mailbox. The entry under the id is followed, so there must
-- be one; its address is the first result.
unfoldable pub leave : Mailman → String → ℕ → Option (ℕ × Mailman)
unfolding boxes keep_boxes
leave m topic address = elim (lookup ℕ_discrete (id32 address) (boxes m topic)) [
  | none ↦ none
  | some found ↦ some (found, keep_boxes m topic (remove ℕ_discrete (id32 address) (boxes m topic)))
]

-- mailman::clear
abbrev pub clear : Mailman → Mailman
clear m = []

-- The entries of one loop of mailman::send: all but the sender's.
unfoldable pub others : ℕ → List (ℕ × ℕ) → List ℕ
others sender [] = []
others sender ((id, address) ∷ bs) =
    if id == sender then others sender bs else address ∷ others sender bs

-- Whom mailman::send hands a packet to, in order: those of its topic, then those of any topic.
unfoldable pub recipients : Mailman → ℕ → String → List ℕ
unfolding others boxes
recipients m sender topic =
    others (id32 sender) (boxes m topic) ++ others (id32 sender) (boxes m any)

-- The mailboxes by address.
abbrev pub Store : Type 0 → Type 0 → Type 0
Store P S = List (ℕ × Mailbox P S)

module _ {P S : Type 0} where
  -- The loops of mailman::send: a callback that reports a failure trips `assert_result`.
  unfoldable pub deliver : Store P S → P → List ℕ → S → Option S
  unfolding lookup place_incoming_mail ℕ_discrete
  deliver store p [] s = some s
  deliver store p (a ∷ rest) s = elim (lookup ℕ_discrete a store) [
    | none ↦ none
    | some m ↦ elim (place_incoming_mail m p s).1 [
      | ok _ _ _ ↦ deliver store p rest (place_incoming_mail m p s).0
      | fail _ _ ↦ none
    ]
  ]

  unfoldable pub send : Mailman → Store P S → ℕ → String → P → S → Option (S × VoidResult)
  unfolding deliver recipients
  send m store sender topic p s = elim (deliver store p (recipients m sender topic) s) [
    | none ↦ none
    | some s' ↦ some (s', done)
  ]

  -- mailman::register_mailbox. `send_as` is the callback that it makes: `send` for that sender.
  unfoldable pub register_mailbox :
      (ℕ → Callback P S) → Mailman → Store P S → ℕ → Option (VoidResult × Mailman × Store P S)
  unfolding lookup put enter set_outgoing_mail_callback ℕ_discrete
  register_mailbox send_as m store a = elim (lookup ℕ_discrete a store) [
    | none ↦ none
    | some box ↦ some (
      done,
      enter m box.topic a,
      put ℕ_discrete a (set_outgoing_mail_callback box (some (send_as a))).1 store,
    )
  ]

  -- mailman::unregister_mailbox: the callback that is taken away is that of the mailbox found under
  -- the id.
  unfoldable pub unregister_mailbox :
      Mailman → Store P S → ℕ → Option (VoidResult × Mailman × Store P S)
  unfolding lookup put leave set_outgoing_mail_callback ℕ_discrete
  unregister_mailbox m store a = elim (lookup ℕ_discrete a store) [
    | none ↦ none
    | some box ↦ elim (leave m box.topic a) [
      | none ↦ none
      | some (found, m') ↦ elim (lookup ℕ_discrete found store) [
        | none ↦ none
        | some other ↦
            some (done, m', put ℕ_discrete found (set_outgoing_mail_callback other none).1 store)
      ]
    ]
  ]
