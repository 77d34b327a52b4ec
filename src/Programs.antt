-- ===== src/Programs.antt =====
-- The programs around the library: daylited/src/daylightd.cpp, tools/listen/listen.cpp,
-- libdaylite/examples/daylite_pub.cpp and daylite_sub.cpp, with libdaylite/src/util.cpp. A program
-- returns its exit code and what it leaves, or `none` where it is still running when the signals that
-- are given have been used up.
pub mod Exits
mod Tests
use daylite.Prelude.{
  ℕ, zero, suc, ◌+◌, ◌%◌, ◌^◌, ◌==◌, Bool, true, false, not, Option, none, some, List, [], ◌∷◌,
  String, if◌then◌else◌,
}
use daylite.Outcome.{VoidResult, ok, fail}

-- The library as the programs call it, with what it keeps: create_node tells whether the pointer is not
-- null, and advertise so, and signal whether the handler is set. A publish is that of the message
-- "test" with the number given.
pub record Library (W : Type 0) : Type 0 where
  pub create_node : String → W → Bool × W
  pub start : String → ℕ → W → VoidResult × W
  pub gateway : String → ℕ → W → VoidResult × W
  pub subscribe : String → W → W
  pub advertise : String → W → Bool × W
  pub set_firehose : Bool → W → W
  pub publish_test : ℕ → W → VoidResult × W
  pub spin_once : W → VoidResult × W
  pub usleep : ℕ → W → W
  pub thread_sleep_duration : W → ℕ
  pub set_handler : W → Bool × W

-- The handler of util.cpp sets `exit__`, and should_exit reads it; listen.cpp has a flag of its own.
abbrev pub sig : Bool → Bool
sig flag = true

abbrev pub should_exit : Bool → Bool
should_exit flag = flag

abbrev pub succeeded : VoidResult → Bool
succeeded (ok b m c) = true
succeeded (fail m c) = false

-- The loop of a program: before each test of the flag a signal comes or not.
unfoldable pub loop : {S : Type 0} → (S → S) → List Bool → Bool → S → Option S
loop round [] flag s = none
loop round (signal ∷ signals) flag s =
    let flag' = if signal then sig flag else flag in
    let rest = loop round signals flag' (round s) in if should_exit flag' then some s else rest

abbrev pub exits : {W : Type 0} → Option W → Option (ℕ × W)
exits none = none
exits (some w) = some (0, w)

module _ {W : Type 0} (lib : Library W) where
  -- register_signal_handlers, whose call of signal is not looked at.
  unfoldable pub register_signal_handlers : W → W
  register_signal_handlers w = (lib.set_handler w).1

  -- A round of daylightd.
  unfoldable pub daylightd_round : W → W
  daylightd_round w = let w' = (lib.spin_once w).1 in lib.usleep (lib.thread_sleep_duration w') w'

  -- daylightd. After gateway it is the node that is tested again.
  unfoldable pub daylightd : List Bool → W → Option (ℕ × W)
  unfolding loop daylightd_round register_signal_handlers
  daylightd signals w =
      let (me, w1) = lib.create_node "master" w in
      if not me
      then some (1, w1)
      else let (ret, w2) = lib.gateway "" 8374 w1 in
        if not me
        then some (1, w2)
        else exits (loop daylightd_round signals false (register_signal_handlers w2))

  -- listen, whose arguments are its name and, if `topics` has one, the topic.
  unfoldable pub listen : List String → List Bool → W → Option (ℕ × W)
  unfolding loop
  listen [] signals w = some (1, w)
  listen (topic ∷ t ∷ more) signals w = some (1, w)
  listen (topic ∷ []) signals w =
      let (n, w1) = lib.create_node "listen" w in
      if not n
      then some (1, w1)
      else let (started, w2) = lib.start "127.0.0.1" 8374 w1 in
        if not (succeeded started)
        then some (1, w2)
        else let (handled, w3) = lib.set_handler (lib.subscribe topic w2) in
          if not handled
          then some (1, w3)
          else exits (loop (λ v. (lib.spin_once v).1) signals false w3)

  -- A round of daylite_sub.
  unfoldable pub sub_round : W → W
  sub_round w =
      let w' = (lib.spin_once (lib.usleep 1000000 w)).1 in (lib.spin_once (lib.usleep 60000 w')).1

  -- daylite_sub
  unfoldable pub daylite_sub : List Bool → W → Option (ℕ × W)
  unfolding loop sub_round register_signal_handlers
  daylite_sub signals w =
      let (me, w1) = lib.create_node "node" w in
      if not me
      then some (1, w1)
      else let (started, w2) = lib.start "127.0.0.1" 8374 w1 in
        if not (succeeded started)
        then some (1, w2)
        else exits
            (loop sub_round signals false (register_signal_handlers (lib.subscribe "/test" w2)))

  -- A round of daylite_pub, with `i`.
  unfoldable pub pub_round : W × ℕ → W × ℕ
  pub_round (w, i) =
      let (published, w1) = lib.publish_test i w in
      (lib.usleep 100000 (lib.spin_once w1).1, (i + 1) % 2 ^ 32)

  abbrev pub without_count : Option (W × ℕ) → Option (ℕ × W)
  without_count none = none
  without_count (some (w, i)) = some (0, w)

  -- daylite_pub
  unfoldable pub daylite_pub : List Bool → W → Option (ℕ × W)
  unfolding loop pub_round register_signal_handlers
  daylite_pub signals w =
      let (me, w1) = lib.create_node "node" w in
      if not me
      then some (1, w1)
      else let (started, w2) = lib.start "127.0.0.1" 8374 w1 in
        if not (succeeded started)
        then some (1, w2)
        else let (p, w3) = lib.advertise "/test" w2 in
          if not p
          then some (1, w3)
          else without_count (
              loop pub_round signals false (register_signal_handlers (lib.set_firehose true w3), 0))
