-- ===== src/Neighborhood/Loss.antt =====
-- What the splats lose, and where they stop the program.
use daylite.Prelude.{
  drop, length-append, length-drop, ◌↔◌, dec_le, ℕ, ◌+◌, ◌-◌, ◌*◌, ◌^◌, ◌<◌, ◌≤◌, ◌≡◌, ◌≢◌, refl,
  Bool, true, false, none, some, length, String, String-discrete, arith,
}
use daylite.Prelude.Assoc.{lookup, put, lookup-put_self}
use daylite.Outcome.{done}
use daylite.Packet.{Bson, Meta, Packet}
use daylite.Node.{Counts}
use daylite.Splat.{
  zeros, Splat, Files, FileName, FileName-discrete, Answers, Memory, splat, file_name, fresh,
  create, connect, map, store, mapped, publishes, room, push, update_available,
}
use daylite.Splat.Bounds.{
  length-zeros, update_available_lem, room_lem, push_fits, after_push, written,
}
use daylite.Splat.Registers.{Pair, Register, Represents}
use daylite.Splat.Sharing.{granted, connect-Represents}
use daylite.Splat.Refine.{available}
use daylite.Neighborhood.{Splats, Shared, push_into, push_splat}

module _ (b : Bson) (blank : Meta) (stale : Bool) (m : Memory b.Doc) where
  open b use {Doc}

  -- Whatever a publisher has pushed, once another reader connects to its file, with the same size, no
  -- reader finds an update until the next push: neither the new one nor one that had not polled yet.
  pub connect_loses :
      (fd id : ℕ) (topic : String) (capacity : ℕ) (r : Register Doc) (s : Pair Doc)
      → Represents b blank stale m capacity r s
      → s.writer.backing ≡ mapped (file_name (splat {Doc = Doc} id topic))
      → let (ret, reader, files) = connect m (granted fd) capacity (splat id topic) s.files in
        (update_available reader files ≡ some false)
        × (update_available s.reader files ≡ some false)
  unfolding connect map splat fresh
  connect_loses fd id topic capacity r s v same =
      let v' = connect-Represents b blank stale m fd id topic capacity r s v same in
      (
        update_available_lem m (connect m (granted fd) capacity (splat id topic) s.files).1
            (file_name (splat {Doc = Doc} id topic)) _ (fresh m capacity) refl
            (lookup-put_self FileName-discrete _ (fresh m capacity) s.files) refl,
        ground (arith, available b blank stale m capacity _ _ v', v'.content),
      )

module _ {Doc : Type 0} (m : Memory Doc) where
  -- A size that a splat does not have room for.
  push_too_long :
      (s : Splat Doc) (files : Files) (p : Packet Doc) (doc : Doc)
      → p.packed ≡ some doc
      → room m s ≤ length (m.get_data doc)
      → push m p s files ≡ none
  unfolding push
  push_too_long s files p doc e h = ground arith

  module _ (fd own n : ℕ) (counts : Counts) (st : Splats Doc) (files : Files) (p : Packet Doc)
      (doc : Doc) (packed : p.packed ≡ some doc) (long : m.header < length (m.get_data doc))
      (short : length (m.get_data doc) < 2 ^ 31)
      (absent : lookup String-discrete p.meta.topic st.own ≡ none)
      (listened : lookup String-discrete p.meta.topic counts ≡ some n) (some_listen : 0 < n) where
    abbrev size : ℕ
    size = length (m.get_data doc) * 2

    abbrev name : FileName
    name = file_name (splat {Doc = Doc} own p.meta.topic)

    -- The splat that the first packet of its topic creates, and the files then.
    abbrev created : Splat Doc
    created = record (splat own p.meta.topic) {
      fd = some fd;
      backing = mapped name;
      size = size;
      mode = publishes;
    }

    abbrev made : Files
    made =
        put FileName-discrete name (fresh m size) (put FileName-discrete name (fresh m size) files)

    push-created :
        push m p created made
        ≡ some (
          after_push m created,
          put FileName-discrete name (written m doc created (fresh m size)) made,
        )
    unfolding splat fresh
    push-created =
        push_fits m created name made (fresh m size) refl
          (lookup-put_self FileName-discrete name (fresh m size) _) p doc refl packed
          (omega (arith, room_lem m created (omega arith) (omega arith)))
          (omega (arith, length-zeros (size - m.header)))

    push_splat_first :
        push_splat m (granted fd) own counts p (st, files)
        ≡ some (
          done,
          true,
          (
            record st { own = put String-discrete p.meta.topic (after_push m created) st.own },
            put FileName-discrete name (written m doc created (fresh m size)) made,
          ),
        )
    unfolding push_splat push_into create map splat store fresh
    push_splat_first = ground (arith, push-created)

    abbrev own_after : Splats Doc
    own_after = record st { own = put String-discrete p.meta.topic (after_push m created) st.own }

    abbrev files_after : Files
    files_after = put FileName-discrete name (written m doc created (fresh m size)) made

    module _ (answers : Answers) (q : Packet Doc) (next : Doc) (same : q.meta.topic ≡ p.meta.topic)
        (next_packed : q.packed ≡ some next) where
      room_after : room m (after_push m created) ≡ size - m.header
      room_after = room_lem m (after_push m created) (omega arith) (omega arith)

      kept : lookup String-discrete q.meta.topic own_after.own ≡ some (after_push m created)
      kept = rw same (lookup-put_self String-discrete p.meta.topic (after_push m created) st.own)

      still : lookup String-discrete q.meta.topic counts ≡ some n
      still = rw same listened

      push_splat_too_long :
          size ≤ length (m.get_data next) + m.header
          → push_splat m answers own counts q (own_after, files_after) ≡ none
      unfolding push_splat push_into
      push_splat_too_long h = ground (
        arith,
        kept,
        still,
        push_too_long (after_push m created) files_after q next next_packed
            (omega (arith, room_after)),
      )

      push_splat_short :
          length (m.get_data next) + m.header < size
          → push_splat m answers own counts q (own_after, files_after) ≢ none
      unfolding push_splat push_into
      push_splat_short h e = ground (
        arith,
        kept,
        still,
        push_fits m (after_push m created) name files_after (written m doc created (fresh m size))
            refl
            (lookup-put_self FileName-discrete name (written m doc created (fresh m size)) made) q
            next refl next_packed (omega (arith, room_after)) bytes_left,
      )
        where
          bytes_left :
              length (m.get_data next) ≤ length (written m doc created (fresh m size)).bytes
          bytes_left = omega (
            arith,
            length-append (m.get_data doc)
                (drop (length (m.get_data doc)) (zeros (size - m.header))),
            length-drop (length (m.get_data doc)) (zeros (size - m.header)),
            length-zeros (size - m.header),
          )

      -- The first packet of a topic that others subscribe to, longer than the header of a splat and
      -- below 2 ^ 31 bytes, creates its splat, where the system grants that, and is announced; after it
      -- a packet of that topic stops the program, by the assertion of push, exactly if it is not shorter
      -- than twice the first less the header.
      pub push_splat_limit :
          (after : Shared Doc) × (push_splat m (granted fd) own counts p (st, files)
            ≡ some (done, true, after))
          × ((push_splat m answers own counts q after ≡ none)
              ↔ (size ≤ length (m.get_data next) + m.header))
      push_splat_limit = (
        (own_after, files_after),
        push_splat_first,
        (
          λ e. elim (dec_le size (length (m.get_data next) + m.header)) [
            | yes h ↦ h
            | no h ↦ absurd (push_splat_short (omega arith) e)
          ],
          push_splat_too_long,
        ),
      )
