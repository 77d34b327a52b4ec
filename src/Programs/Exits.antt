-- ===== src/Programs/Exits.antt =====
-- When the programs end, and with which exit code.
use daylite.Prelude.{
  ℕ, zero, suc, ◌≡◌, refl, Bool, true, false, Option, none, some, List, [], ◌∷◌, String, arith,
  Option-cases, inl, inr, if◌then◌else◌, Bool-cases,
}
use daylite.Programs.{
  Library, succeeded, loop, exits, without_count, register_signal_handlers, listen, sub_round,
  daylite_sub, pub_round, daylite_pub,
}

-- How many tests of the flag come before the first signal.
unfoldable pub first_signal : List Bool → Option ℕ
first_signal [] = none
first_signal (true ∷ signals) = some 0
first_signal (false ∷ signals) = elim (first_signal signals) [ none ↦ none | some n ↦ some (suc n) ]

unfoldable pub times : {S : Type 0} → ℕ → (S → S) → S → S
times zero f s = s
times (suc n) f s = times n f (f s)

-- A loop makes a round for each test before the first signal, and then ends; without a signal it goes on.
pub loop_lem :
    {S : Type 0} (round : S → S) (signals : List Bool) (s : S)
    → loop round signals false s
      ≡ (elim (first_signal signals) [ none ↦ none | some n ↦ some (times n round s) ])
unfolding loop first_signal times
loop_lem round [] s = refl
loop_lem round (true ∷ signals) s = refl
loop_lem round (false ∷ signals) s = elim (Option-cases (first_signal signals)) [
  | inl n ↦ ground (arith, n, loop_lem round signals (round s))
  | inr (k, e) ↦ ground (arith, e, loop_lem round signals (round s))
]

-- The rounds before the first signal, if there is one.
abbrev pub until_signal : {S : Type 0} → List Bool → (S → S) → S → Option S
until_signal signals round s = elim (first_signal signals) [
  | none ↦ none
  | some n ↦ some (times n round s)
]

module _ {W : Type 0} (lib : Library W) (signals : List Bool) (w : W) where
  -- listen on a topic ends at once with 1 if it gets no node, cannot start it, or cannot set its handler; else
  -- it ends at the first signal and with 0, after a pass of the spinner for each test before it.
  listen_lem :
      (topic : String)
      → listen lib (topic ∷ []) signals w ≡ (
          let (me, w1) = lib.create_node "listen" w in
          let (started, w2) = lib.start "127.0.0.1" 8374 w1 in
          let (handled, w3) = lib.set_handler (lib.subscribe topic w2) in
          if me
          then if succeeded started
            then if handled
              then exits (until_signal signals (λ v. (lib.spin_once v).1) w3)
              else some (1, w3)
            else some (1, w2)
          else some (1, w1))
  unfolding listen
  listen_lem topic =
      let w1 = (lib.create_node "listen" w).1 in
      let w2 = (lib.start "127.0.0.1" 8374 w1).1 in
      let w3 = (lib.set_handler (lib.subscribe topic w2)).1 in
      ground (
        arith,
        Bool-cases (lib.create_node "listen" w).0,
        Bool-cases (succeeded (lib.start "127.0.0.1" 8374 w1).0),
        Bool-cases (lib.set_handler (lib.subscribe topic w2)).0,
        loop_lem (λ v. (lib.spin_once v).1) signals w3,
      )

  -- daylite_pub and daylite_sub that have got what they ask for end at the first signal and with 0.
  pub_and_sub_lem :
      let w1 = (lib.create_node "node" w).1 in
      let w2 = (lib.start "127.0.0.1" 8374 w1).1 in
      let w3 = (lib.advertise "/test" w2).1 in
      (lib.create_node "node" w).0 ≡ true
      → succeeded (lib.start "127.0.0.1" 8374 w1).0 ≡ true
      → (lib.advertise "/test" w2).0 ≡ true
      → (daylite_sub lib signals w
          ≡ exits (
              until_signal signals
                (sub_round lib)
                (register_signal_handlers lib (lib.subscribe "/test" w2))))
        × (daylite_pub lib signals w
            ≡ without_count lib (
                until_signal signals
                  (pub_round lib)
                  (register_signal_handlers lib (lib.set_firehose true w3), 0)))
  unfolding daylite_sub daylite_pub
  pub_and_sub_lem me started advertised =
      let w2 = (lib.start "127.0.0.1" 8374 (lib.create_node "node" w).1).1 in
      (
        ground (
          arith,
          me,
          started,
          loop_lem (sub_round lib) signals
              (register_signal_handlers lib (lib.subscribe "/test" w2)),
        ),
        ground (
          arith,
          me,
          started,
          advertised,
          loop_lem (pub_round lib) signals (
            register_signal_handlers lib (lib.set_firehose true (lib.advertise "/test" w2).1),
            0,
          ),
        ),
      )
