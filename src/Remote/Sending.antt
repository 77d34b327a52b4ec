-- ===== src/Remote/Sending.antt =====
-- Which packets remote_node::send lets through, and what it makes of them.
use mathlib.Core.Option.{some-injective}
use daylite.Prelude.{
  ℕ, ◌≡◌, ◌⊎◌, inl, inr, refl, sym, ◌∙◌, Bool, true, false, Option, none, some, String-discrete,
  arith, Bool-cases,
}
use daylite.Prelude.Assoc.{lookup}
use daylite.Topic.{internal, topic_eq}
use daylite.Packet.{Bson, Packet}
use daylite.Node.{Counts}
use daylite.Remote.{Mode, allow_internal, block_internal, missing, stamped, send}

Mode-cases : (m : Mode) → (m ≡ allow_internal) ⊎ (m ≡ block_internal)
Mode-cases allow_internal = inl refl
Mode-cases block_internal = inr refl

module _ (b : Bson) (own : ℕ) (mode : Mode) (counts : Counts) where
  open b use {Doc}

  -- Not marked local, and of a topic that has an entry among the counted subscriptions, or internal
  -- where the mode allows that.
  abbrev pub Passes : Packet Doc → Type 0
  Passes p =
      (p.local_only ≡ false)
      × ((missing (lookup String-discrete p.meta.topic counts) ≡ false)
          ⊎ ((mode ≡ allow_internal) × (p.meta.topic ≡ internal)))

  not_both : {x : Bool} → x ≡ true → x ≡ false → ⊥
  not_both e f = cc

  closed :
      (p : Packet Doc)
      → missing (lookup String-discrete p.meta.topic counts) ≡ true
      → ¬ ((mode ≡ allow_internal) × (p.meta.topic ≡ internal))
      → ¬ Passes p
  closed p gone shut (l, inl there) = not_both gone there
  closed p gone shut (l, inr way) = shut way

  -- A packet goes out exactly if it passes, as its copy stamped with the node's id; else nothing does.
  pub send_lem :
      (p : Packet Doc)
      → (Passes p × (send b own mode counts p ≡ some (stamped b own p)))
        ⊎ ((¬ Passes p) × (send b own mode counts p ≡ none))
  unfolding send topic_eq
  send_lem p = elim (Bool-cases p.local_only) [
    | inl l ↦ inr ((λ h. not_both l h.0), simp l)
    | inr l ↦ elim (Bool-cases (missing (lookup String-discrete p.meta.topic counts))) [
      | inr there ↦ inl ((l, inl there), ground arith)
      | inl gone ↦ elim (Mode-cases mode) [
        | inr blocks ↦ inr (closed p gone (λ h. blocks_not blocks h.0), ground arith)
        | inl open_mode ↦ elim (String-discrete p.meta.topic internal) [
          | yes e ↦ inl ((l, inr (open_mode, e)), ground arith)
          | no e ↦ inr (closed p gone (λ h. e h.1), ground arith)
        ]
      ]
    ]
  ]
    where
      blocks_not : mode ≡ block_internal → mode ≡ allow_internal → ⊥
      blocks_not e f = cc

  pub send-stamped : (p q : Packet Doc) → send b own mode counts p ≡ some q → q ≡ stamped b own p
  send-stamped p q h = elim (send_lem p) [
    | inl (passes, e) ↦ some-injective _ _ (sym h ∙ e)
    | inr (blocked, e) ↦ none_is_not_some (sym e ∙ h)
  ]
    where
      none_is_not_some : ◌≡◌ {A = Option (Packet Doc)} none (some q) → q ≡ stamped b own p
      none_is_not_some e = cc
