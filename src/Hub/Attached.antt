-- ===== src/Hub/Attached.antt =====
-- The mailboxes of a node stay wired when one is added.
use mathlib.Core.Path.{subst}
use daylite.Prelude.{
  ℕ, ◌≡◌, refl, sym, ap, ◌∙◌, none, some, List, [], ◌∷◌, ℕ_discrete, String-discrete, ite, arith,
  ◌⊎◌, inl, inr,
}
use daylite.Prelude.Assoc.{lookup, put}
use daylite.Topic.{Topic}
use daylite.Packet.{NetworkTime, Bson}
use daylite.Mail.{Mailman, id32, boxes, enter}
use daylite.Mail.Recipients.{enter-IsKeyed}
use daylite.Mail.Table.{boxes-enter}
use daylite.Remote.{Mode}
use daylite.Hub.{InfoCode, Role, remote, control, subscribes, publishes, Post, Roles, Hub}
use daylite.Hub.Steps.{IsWatched}
use daylite.Hub.Shares.{IsAlone, IsOwn}
use daylite.Hub.Wired.{Fits, ArePlaced, IsWired}

-- A mailbox at a new address.
module _ (b : Bson) (code : InfoCode b.Doc) (own : ℕ) (now : NetworkTime) (roles : Roles) (box : ℕ)
    (post : Post) (new : lookup ℕ_discrete box roles ≡ none) where
  open b use {Doc}

  abbrev pub with_box : Roles
  with_box = (box, post) ∷ roles

  lookup-with_box :
      (a : ℕ)
      → lookup ℕ_discrete a with_box
        ≡ ite (ℕ_discrete box a) (some post) (lookup ℕ_discrete a roles)
  unfolding lookup
  lookup-with_box a = refl

  pub lookup_box : lookup ℕ_discrete box with_box ≡ some post
  lookup_box = ground (arith, lookup-with_box box)

  pub older :
      (a : ℕ) (other : Post)
      → lookup ℕ_discrete a roles ≡ some other
      → lookup ℕ_discrete a with_box ≡ some other
  older a other e = ground (arith, e, new, lookup-with_box a)

  Fits-with_box :
      (topic : Topic) (role : Role)
      → Fits b code own now roles topic role
      → Fits b code own now with_box topic role
  Fits-with_box topic (remote l m) f = f
  Fits-with_box topic control f = f
  Fits-with_box topic (subscribes s) f = tt
  Fits-with_box topic publishes f = tt

  ArePlaced-with_box :
      (topic : Topic) (bs : List (ℕ × ℕ))
      → ArePlaced b code own now roles topic bs
      → ArePlaced b code own now with_box topic bs
  ArePlaced-with_box topic [] p = tt
  ArePlaced-with_box topic ((k, a) ∷ bs) (role, e, fits, p) = (
    role,
    older a (record { topic = topic; role = role }) e,
    Fits-with_box topic role fits,
    ArePlaced-with_box topic bs p,
  )

  put-ArePlaced :
      (k : ℕ) (bs : List (ℕ × ℕ))
      → Fits b code own now roles post.topic post.role
      → ArePlaced b code own now with_box post.topic bs
      → ArePlaced b code own now with_box post.topic (put ℕ_discrete k box bs)
  unfolding put
  put-ArePlaced k [] fits p = (post.role, lookup_box, Fits-with_box post.topic post.role fits, tt)
  put-ArePlaced k ((j, a) ∷ bs) fits p =
      elim (ℕ_discrete j k)
        as (λ d.
          ArePlaced b code own now with_box post.topic
            (ite d ((j, box) ∷ bs) ((j, a) ∷ put ℕ_discrete k box bs))) [
              | yes e ↦ (post.role, lookup_box, Fits-with_box post.topic post.role fits, p.3)
              | no e ↦ (p.0, p.1, p.2, put-ArePlaced k bs fits p.3)
            ]

  -- What is at an address is the new mailbox, or was there before.
  split :
      (a : ℕ) (other : Post)
      → lookup ℕ_discrete a with_box ≡ some other
      → ((a ≡ box) × (other ≡ post)) ⊎ (lookup ℕ_discrete a roles ≡ some other)
  split a other e = elim (ℕ_discrete box a) [
    | yes same ↦ inl (sym same, ground (arith, lookup-with_box a))
    | no differ ↦ inr (ground (arith, lookup-with_box a))
  ]

  module _ (m : Mailman) (h : Hub Doc) (v : IsWired b code own now roles m h)
      (unwatched : (l : ℕ) (mode : Mode)
        → post.role ≡ remote l mode
        → lookup ℕ_discrete l h.buffers ≡ none) where
    -- No other remote has the link, since it would be watched.
    no_link :
        (c : ℕ) (other : Post) (l : ℕ) (mode mode' : Mode)
        → lookup ℕ_discrete c roles ≡ some other
        → other.role ≡ remote l mode
        → post.role ≡ remote l mode'
        → ⊥
    no_link c other l mode mode' e f g =
        let (q, k) =
          subst (λ r. IsWatched b code own now roles r h.buffers) f (v.watched c other e) in
        ground (arith, k, unwatched l mode' g)

    alone-with_box :
        (a l : ℕ) (mode : Mode) (other : Post)
        → lookup ℕ_discrete a with_box ≡ some other
        → other.role ≡ remote l mode
        → IsAlone b code own now with_box a l
    alone-with_box a l mode other e f c next mode' g k = elim (split a other e) [
      | inl (same, is_post) ↦ elim (split c next g) [
        | inl (also, c_post) ↦ also ∙ sym same
        | inr old ↦ absurd (no_link c next l mode' mode old k (ground (arith, f, is_post)))
      ]
      | inr was ↦ elim (split c next g) [
        | inl (also, c_post) ↦
            absurd (no_link a other l mode mode' was f (ground (arith, k, c_post)))
        | inr old ↦ v.alone a l mode other was f c next mode' old k
      ]
    ]

    own_alone-with_box :
        ((c : ℕ) (other : Post)
          → lookup ℕ_discrete c roles ≡ some other
          → other.role ≡ control
          → post.role ≡ control
          → ⊥)
        → (a : ℕ) (other : Post) → lookup ℕ_discrete a with_box ≡ some other
        → other.role ≡ control
        → IsOwn b code own now with_box a
    own_alone-with_box foreign a other e f c next g k = elim (split a other e) [
      | inl (same, is_post) ↦ elim (split c next g) [
        | inl (also, c_post) ↦ also ∙ sym same
        | inr old ↦ absurd (foreign c next old k (ground (arith, f, is_post)))
      ]
      | inr was ↦ elim (split c next g) [
        | inl (also, c_post) ↦ absurd (foreign a other was f (ground (arith, k, c_post)))
        | inr old ↦ v.own_alone a other was f c next old k
      ]
    ]

    -- A mailbox that fits and is no second one of the node's own is wired in, where the thread watches its link if it
    -- has one, and those of the others as before.
    pub enter-IsWired :
        (h' : Hub Doc)
        → Fits b code own now roles post.topic post.role
        → ((c : ℕ) (other : Post)
            → lookup ℕ_discrete c roles ≡ some other
            → other.role ≡ control
            → post.role ≡ control
            → ⊥)
        → IsWatched b code own now with_box post.role h'.buffers
        → ((r : Role)
            → IsWatched b code own now roles r h.buffers
            → IsWatched b code own now with_box r h'.buffers)
        → IsWired b code own now with_box (enter m post.topic box) h'
    enter-IsWired h' fits foreign watched still = record {
      keyed = enter-IsKeyed m post.topic box v.keyed;
      placed = λ topic.
          rw (boxes-enter m post.topic topic box)
            (elim (String-discrete post.topic topic)
              as (λ d.
                ArePlaced b code own now with_box topic
                  (ite d (put ℕ_discrete (id32 box) box (boxes m post.topic)) (boxes m topic))) [
                    | yes e ↦
                        subst
                          (λ t.
                            ArePlaced b code own now with_box t
                              (put ℕ_discrete (id32 box) box (boxes m post.topic)))
                          e
                          (put-ArePlaced (id32 box) (boxes m post.topic) fits (
                            ArePlaced-with_box post.topic (boxes m post.topic)
                              (v.placed post.topic)))
                    | no e ↦ ArePlaced-with_box topic (boxes m topic) (v.placed topic)
                  ]);
      alone = alone-with_box;
      own_alone = own_alone-with_box foreign;
      watched = λ a other e. elim (split a other e) [
        | inl (same, is_post) ↦
            subst (λ r. IsWatched b code own now with_box r h'.buffers)
              (sym (ap (λ o. o.role) is_post)) watched
        | inr was ↦ still other.role (v.watched a other was)
      ];
    }
