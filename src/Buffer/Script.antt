-- ===== src/Buffer/Script.antt =====
-- A client's calls of one `dynamic_circular_buffer`, against an unbounded queue of bytes.
use daylite.Prelude.{
  ℕ, ◌+◌, ◌≤◌, ◌≡◌, ap, refl, Option, some, List, [], ◌∷◌, ◌++◌, arith, length, length-append, take,
  drop, min, length-drop, dec_le,
}
use daylite.Buffer.{Buffer, read, discard, clear, write, ◌>>=◌}
use daylite.Buffer.Bounds.{IsValid, contents}
use daylite.Buffer.Refine.{read_refines, discard_refines, clear_refines, write_refines}
use daylite.Buffer.Growth.{write_grows}

pub data Op : Type 0 where
  put : List ℕ → Op
  get skip : ℕ → Op
  wipe : Op

-- The bytes that a call hands out, and the count that it returns.
abbrev pub Reply : Type 0
Reply = List ℕ × ℕ

unfoldable pub perform : (ℕ → ℕ) → Buffer → Op → Option (Reply × Buffer)
perform junk b (put bytes) = write junk b bytes >>= λ b'. some (([], 0), b')
perform junk b (get n) = read b n >>= λ p. some ((p.0, length p.0), p.1)
perform junk b (skip n) = discard b n >>= λ p. some (([], p.0), p.1)
perform junk b wipe = some (([], 0), clear b)

unfoldable pub run : (ℕ → ℕ) → Buffer → List Op → Option (List Reply)
run junk b [] = some []
run junk b (op ∷ ops) =
    perform junk b op >>= λ p. run junk p.1 ops >>= λ replies. some (p.0 ∷ replies)

-- The queue that has no bound.
unfoldable pub queue_perform : List ℕ → Op → Reply × List ℕ
queue_perform q (put bytes) = (([], 0), q ++ bytes)
queue_perform q (get n) = let k = min n (length q) in ((take k q, length (take k q)), drop k q)
queue_perform q (skip n) = let k = min n (length q) in (([], k), drop k q)
queue_perform q wipe = (([], 0), [])

unfoldable pub queue_run : List ℕ → List Op → List Reply
queue_run q [] = []
queue_run q (op ∷ ops) = (queue_perform q op).0 ∷ queue_run (queue_perform q op).1 ops

abbrev pub written : List Op → ℕ
written [] = 0
written (put bytes ∷ ops) = length bytes + written ops
written (get n ∷ ops) = written ops
written (skip n ∷ ops) = written ops
written (wipe ∷ ops) = written ops

write_either :
    (junk : ℕ → ℕ) (b : Buffer) (bytes : List ℕ)
    → IsValid b
    → length bytes + length (contents b) ≤ 1_000_000
    → (b' : Buffer) × (write junk b bytes ≡ some b')
      × (contents b' ≡ contents b ++ bytes)
      × IsValid b'
write_either junk b bytes v h = elim (dec_le (length bytes + length (contents b)) b.physical_size) [
  | yes fits ↦ let d = write_refines junk b bytes v fits in (d.0, d.1, d.2, d.3)
  | no full ↦
      let d = write_grows junk b bytes v (omega arith) (omega arith) (omega arith) in
      (d.0, d.1, d.2, d.3)
]

-- One call: the reply of the queue, and a valid buffer that holds the queue's bytes.
perform_refines :
    (junk : ℕ → ℕ) (b : Buffer) (op : Op)
    → IsValid b
    → written (op ∷ []) + length (contents b) ≤ 1_000_000
    → (b' : Buffer) × (perform junk b op ≡ some ((queue_perform (contents b) op).0, b'))
      × (contents b' ≡ (queue_perform (contents b) op).1)
      × IsValid b'
unfolding perform queue_perform
perform_refines junk b (put bytes) v h =
    let d = write_either junk b bytes v (omega arith) in (d.0, rw d.1, d.2, d.3)
perform_refines junk b (get n) v h = let d = read_refines b n v in (d.0, rw d.1, d.2, d.3)
perform_refines junk b (skip n) v h = let d = discard_refines b n v in (d.0, rw d.1, d.2, d.3)
perform_refines junk b wipe v h = let d = clear_refines b v in (clear b, refl, d.0, d.1)

queue_size :
    (q : List ℕ) (op : Op) (ops : List Op)
    → written ops + length (queue_perform q op).1 ≤ written (op ∷ ops) + length q
unfolding queue_perform
queue_size q (put bytes) ops = omega (arith, length-append q bytes)
queue_size q (get n) ops = omega (arith, length-drop (min n (length q)) q)
queue_size q (skip n) ops = omega (arith, length-drop (min n (length q)) q)
queue_size q wipe ops = omega arith

first_write : (op : Op) (ops : List Op) → written (op ∷ []) ≤ written (op ∷ ops)
first_write (put bytes) ops = omega arith
first_write (get n) ops = omega arith
first_write (skip n) ops = omega arith
first_write wipe ops = omega arith

-- No sequence of calls tells a valid buffer from an unbounded queue of the bytes that it holds, as
-- long as those and all that the calls write are a million bytes at most; and no call faults.
pub run_refines :
    (junk : ℕ → ℕ) (b : Buffer) (ops : List Op)
    → IsValid b
    → written ops + length (contents b) ≤ 1_000_000
    → run junk b ops ≡ some (queue_run (contents b) ops)
unfolding run queue_run
run_refines junk b [] v h = refl
run_refines junk b (op ∷ ops) v h =
    let d = perform_refines junk b op v (omega (arith, first_write op ops)) in
    let rest =
      run_refines junk d.0 ops d.3 (omega (arith, ap length d.2, queue_size (contents b) op ops)) in
    rw (d.1, rest, d.2)
