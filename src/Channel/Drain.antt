-- ===== src/Channel/Drain.antt =====
-- A client that goes on calling tcp_input_channel::read.
use daylite.Prelude.{
  ℕ, zero, suc, ◌+◌, ◌≤◌, ◌≡◌, refl, ◌∙◌, Option, none, some, List, [], ◌∷◌, ◌++◌, map, false,
  length, arith, String,
}
use daylite.Outcome.{ok, fail}
use daylite.Channel.Input.{State, Chunk, receive_from, fill, read_size, read}
use daylite.Channel.Stream.{joined, pending, Progress, got, waits, IsFrame, read_size-Progress}

module _ {P : Type 0} (decode : List ℕ → Option P) where
  -- The calls of `read` by a client that goes on after a failure, `fuel` of them.
  unfoldable pub drain : ℕ → State → Option (List P × State)
  drain zero s = some ([], s)
  drain (suc fuel) s = elim (read decode (ok false "" 0) s) [
    | none ↦ none
    | some (fail m c, s') ↦ drain fuel s'
    | some (ok p m c, s') ↦ elim (drain fuel s') [ none ↦ none | some (ps, t) ↦ some (p ∷ ps, t) ]
  ]

  abbrev pub stream : List (List ℕ × P) → List ℕ
  stream [] = []
  stream ((f, p) ∷ frames) = f ++ stream frames

  abbrev pub AllFrames : List (List ℕ × P) → Type 0
  AllFrames [] = Unit
  AllFrames ((f, p) ∷ frames) = IsFrame decode f p × AllFrames frames

  read_nothing :
      (b : List ℕ) (k : List Chunk)
      → b ++ joined k ≡ []
      → (m : String) × (c : ℕ) × (s' : State) × (read_size decode
            (record { buffer = b; socket = k })
          ≡ some (fail m c, s'))
        × (pending s' ≡ [])
  unfolding read_size fill receive_from
  read_nothing (x ∷ b) k e = cc
  read_nothing [] [] e = (_, _, _, refl, refl)
  read_nothing [] (fail m c ∷ k) e = (_, _, _, refl, e)
  read_nothing [] (ok [] m c ∷ k) e = (_, _, _, refl, e)
  read_nothing [] (ok (x ∷ xs) m c ∷ k) e = cc

  drain-nothing :
      (fuel : ℕ) (s : State)
      → pending s ≡ []
      → (t : State) × (drain fuel s ≡ some ([], t)) × (pending t ≡ [])
  unfolding drain read
  drain-nothing zero s e = (s, refl, e)
  drain-nothing (suc fuel) s e =
      let (m, c, s', r, e') = read_nothing s.buffer s.socket e in
      let (t, d, f) = drain-nothing fuel s' e' in (t, rw (r, drain, d), f)

  -- What `drain` yields with the fuel given, for a state from which `frames` are on their way.
  abbrev Drains : ℕ → State → List (List ℕ × P) → Type 0
  Drains fuel s frames =
      (t : State) × (drain fuel s ≡ some (map (λ f. f.1) frames, t)) × (pending t ≡ [])

  drain-step :
      (fuel : ℕ) (s : State) (f : List ℕ) (p : P) (frames : List (List ℕ × P))
      → pending s ≡ f ++ stream frames
      → length frames + length s.socket ≤ fuel
      → ((s' : State)
          → pending s' ≡ stream frames
          → length frames + length s'.socket ≤ fuel
          → Drains fuel s' frames)
      → ((s' : State)
          → pending s' ≡ f ++ stream frames
          → suc (length frames) + length s'.socket ≤ fuel
          → Drains fuel s' ((f, p) ∷ frames))
      → Progress decode s p (stream frames) (read_size decode s)
      → Drains (suc fuel) s ((f, p) ∷ frames)
  unfolding drain read
  drain-step fuel s f p frames e h after again (got s' o left k) =
      let (t, d, z) = after s' left (omega arith) in (t, rw (o, drain, d), z)
  drain-step fuel s f p frames e h after again (waits m c s' o same k) =
      let (t, d, z) = again s' (same ∙ e) (omega arith) in (t, rw (o, drain, d), z)

  drain-stream :
      (fuel : ℕ) (s : State) (frames : List (List ℕ × P))
      → AllFrames frames
      → pending s ≡ stream frames
      → length frames + length s.socket ≤ fuel
      → Drains fuel s frames
  drain-stream fuel s [] v e h = drain-nothing fuel s e
  drain-stream zero s (f ∷ frames) v e h = absurd (omega arith)
  drain-stream (suc fuel) s ((f, p) ∷ frames) v e h =
      drain-step fuel s f p frames e (omega arith) (λ s'. drain-stream fuel s' frames v.1)
        (λ s'. drain-stream fuel s' ((f, p) ∷ frames) v)
        (read_size-Progress decode s f (stream frames) p v.0 e)

  -- However a run of documents that state their size and decode is cut into chunks, and whatever
  -- transient failures stand between them: as many reads as there are documents and answers of the
  -- socket return the documents' packets, each once and in order, and leave no byte behind.
  pub drain_lem :
      (s : State) (frames : List (List ℕ × P))
      → AllFrames frames
      → pending s ≡ stream frames
      → (t : State) × (drain (length frames + length s.socket) s ≡ some (map (λ f. f.1) frames, t))
        × (pending t ≡ [])
  drain_lem s frames v e = drain-stream (length frames + length s.socket) s frames v e (omega arith)
