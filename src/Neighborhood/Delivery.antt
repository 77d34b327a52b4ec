-- ===== src/Neighborhood/Delivery.antt =====
-- A packet on its way through a splat from one node to the mailbox of another.
use mathlib.Core.Path.{subst}
use daylite.Prelude.{
  ◌∙◌, ℕ, ◌+◌, ◌-◌, ◌%◌, ◌^◌, ◌<◌, ◌≡◌, ◌≢◌, ap, Bool, true, false, Option, none, some, [], ◌∷◌,
  length, String-discrete, arith,
}
use daylite.Prelude.Assoc.{lookup, put}
use daylite.Outcome.{done}
use daylite.Packet.{Bson, Meta, Packet, packed_of, build}
use daylite.Node.{Counts}
use daylite.Splat.{Splat, Files, Answers, Memory, push}
use daylite.Splat.Bounds.{update_available_lem}
use daylite.Splat.Registers.{
  IsReadable, Pair, Register, pushed, with_writer, step, register_step, arrived, bytes_of,
  IsContent, Represents,
}
use daylite.Splat.Refine.{push-Represents, available, poll_shows, reader_after}
use daylite.Neighborhood.{Splats, push_into, push_splat, update_splat}

module _ (b : Bson) (blank : Meta) (stale : Bool) (m : Memory b.Doc) where
  open b use {Doc}

  -- What a push that returns leaves.
  pushed_inv :
      (o : Option (Splat Doc × Files)) (s s' : Pair Doc)
      → with_writer b blank stale m s o ≡ some s'
      → (o ≡ some (s'.writer, s'.files)) × (s'.reader ≡ s.reader)
  pushed_inv none s s' e = absurd (ground arith)
  pushed_inv (some (w, files)) s s' e = ground arith

  step_reader :
      (p : Packet Doc) (s s' : Pair Doc)
      → step b blank stale m (pushed p) s ≡ some s'
      → s'.reader ≡ s.reader
  unfolding step
  step_reader p s s' e = (pushed_inv (push m (build b p) s.writer s.files) s s' e).1

  -- The pushing node `own` counts subscribers of the topic and has the splat of it.
  module _ (answers : Answers) (own : ℕ) (counts : Counts) (st : Splats Doc) (s : Pair Doc)
      (p : Packet Doc) (n : ℕ) (listened : lookup String-discrete p.meta.topic counts ≡ some n)
      (some_listen : 0 < n)
      (there : lookup String-discrete p.meta.topic st.own ≡ some s.writer) where
    push_splat_lem :
        (s' : Pair Doc)
        → step b blank stale m (pushed p) s ≡ some s'
        → push_splat m answers own counts (build b p) (st, s.files)
          ≡ some (
            done,
            false,
            (record st { own = put String-discrete p.meta.topic s'.writer st.own }, s'.files),
          )
    unfolding step push_splat push_into build
    push_splat_lem s' e = ground (arith, pushed_inv (push m (build b p) s.writer s.files) s s' e)

  -- A reading node with a subscriber of the topic.
  module _ (capacity : ℕ) (r : Register Doc) (s : Pair Doc)
      (v : Represents b blank stale m capacity r s) (local_counts : Counts) (n : ℕ)
      (listened : lookup String-discrete s.reader.topic local_counts ≡ some n) where
    -- What it has not seen is placed.
    update_splat_new :
        (p : Packet Doc)
        → IsContent b blank stale m (some p) r.pushes v.file
        → r.pushes % 2 ^ 32 ≢ r.seen % 2 ^ 32
        → update_splat b blank stale m local_counts s.files s.reader
          ≡ some (arrived b blank stale m p ∷ [], reader_after b blank stale m capacity r s v p)
    unfolding update_splat
    update_splat_new p c new = ground (
      arith,
      available b blank stale m capacity r s v,
      v.reader_version,
      c,
      poll_shows b blank stale m capacity r s v p c,
    )

    -- Once it has seen it, nothing is.
    update_splat_seen :
        (p : Packet Doc)
        → update_splat b blank stale m local_counts s.files
            (reader_after b blank stale m capacity r s v p)
          ≡ some ([], reader_after b blank stale m capacity r s v p)
    unfolding update_splat
    update_splat_seen p = ground (
      arith,
      update_available_lem m (reader_after b blank stale m capacity r s v p) v.name s.files v.file
          v.reader_backing v.found v.reader_mode,
    )

  -- Node `own` counts subscribers of a packet's topic and publishes a splat of it, another node reads
  -- that splat and has a subscriber of its topic, the packet fits and can be read back, and the counts of pushes and of looks
  -- differ modulo 2 ^ 32 once it is pushed: then the push succeeds without an announcement, the other
  -- node's next update places the packet once, for itself only, and the update after that nothing.
  pub update_splat-push_splat :
      (answers : Answers) (own n k capacity : ℕ) (counts local_counts : Counts) (st : Splats Doc)
      (r : Register Doc) (s : Pair Doc) (p : Packet Doc)
      → Represents b blank stale m capacity r s
      → lookup String-discrete p.meta.topic counts ≡ some n
      → 0 < n
      → lookup String-discrete p.meta.topic st.own ≡ some s.writer
      → lookup String-discrete s.reader.topic local_counts ≡ some k
      → length (bytes_of b blank stale m p) < capacity - m.header
      → IsReadable b blank stale m p
      → (r.pushes + 1) % 2 ^ 32 ≢ r.seen % 2 ^ 32
      → (st' : Splats Doc) × (files : Files) × (reader : Splat Doc) × (push_splat m answers own
            counts
            (build b p)
            (st, s.files)
          ≡ some (done, false, (st', files)))
        × (update_splat b blank stale m local_counts files s.reader
            ≡ some (
              record p { packed = some (packed_of b p.meta p.msg); local_only = true } ∷ [],
              reader,
            ))
        × (update_splat b blank stale m local_counts files reader ≡ some ([], reader))
  unfolding register_step
  update_splat-push_splat answers own n k capacity counts local_counts st r s p v listened
        some_listen there heard fits readable new =
      let (s', e, v') = push-Represents b blank stale m capacity r s v p fits readable in
      let heard' : lookup String-discrete s'.reader.topic local_counts ≡ some k =
        ap (λ (t : Splat Doc). lookup String-discrete t.topic local_counts) (step_reader p s s' e)
        ∙ heard in
      let r' = register_step b blank stale m (pushed p) r in
      (
        record st { own = put String-discrete p.meta.topic s'.writer st.own },
        s'.files,
        reader_after b blank stale m capacity r' s' v' p,
        push_splat_lem answers own counts st s p n listened some_listen there s' e,
        subst
            (λ t.
              update_splat b blank stale m local_counts s'.files t
              ≡ some (
                arrived b blank stale m p ∷ [],
                reader_after b blank stale m capacity r' s' v' p,
              ))
            (step_reader p s s' e)
            (update_splat_new capacity r' s' v' local_counts k heard' p v'.content new),
        update_splat_seen capacity r' s' v' local_counts k heard' p,
      )
