-- ===== src/Splat/Refine.antt =====
-- The register that a publisher and a reader keep is refined by the splats, whatever is pushed and polled.
use mathlib.Core.Path.{subst}
use daylite.Prelude.{
  ◌≢◌, ℕ_discrete, ℕ, ◌-◌, ◌%◌, ◌^◌, ◌<◌, ◌==◌, ◌≡◌, refl, sym, ap, ◌∙◌, Bool, true, false, Option,
  none, some, length, drop, take-append_left, length-append, length-drop, arith, not, ◌&&◌,
}
use daylite.Prelude.Assoc.{put, lookup-put}
use daylite.Packet.{Bson, Meta, Packet, packed_of, build}
use daylite.Packet.RoundTrip.{parse-packed_of}
use daylite.Splat.Bounds.{room_lem, after_push, written, push_fits, update_available_lem, poll_lem}
use daylite.Splat.{Splat, FileName-discrete, Memory, poll, update_available}
use daylite.Splat.Registers.{
  IsReadable, Pair, Register, pushed, polled, poll_update, with_writer, step, arrived, bytes_of,
  look, register_step, IsContent, Represents,
}

module _ (b : Bson) (blank : Meta) (stale : Bool) (m : Memory b.Doc) where
  open b use {Doc}

  module _ (capacity : ℕ) (r : Register Doc) (s : Pair Doc)
      (v : Represents b blank stale m capacity r s) where
    pub push-Represents :
        (p : Packet Doc)
        → length (bytes_of b blank stale m p) < capacity - m.header
        → IsReadable b blank stale m p
        → (s' : Pair Doc) × (step b blank stale m (pushed p) s ≡ some s')
          × Represents b blank stale m capacity (register_step b blank stale m (pushed p) r) s'
    unfolding step build register_step
    push-Represents p fits readable = (
      record s {
        writer = after_push m s.writer;
        files = put FileName-discrete v.name (written m doc s.writer v.file) s.files;
      },
      ap (with_writer b blank stale m s) (
          push_fits m s.writer v.name s.files v.file v.writer_backing v.found (build b p) doc
            v.writer_mode refl
            (ground (arith, room_lem m s.writer, v.writer_size, v.header_fits, v.size_t, fits))
            (omega (arith, v.room_left))),
      record {
        name = v.name;
        file = written m doc s.writer v.file;
        writer_mode = v.writer_mode;
        reader_mode = v.reader_mode;
        writer_backing = v.writer_backing;
        reader_backing = v.reader_backing;
        writer_size = v.writer_size;
        found = ground (
          arith,
          lookup-put FileName-discrete v.name v.name (written m doc s.writer v.file) s.files,
        );
        room_left = ground (
          arith,
          length-append (m.get_data doc) (drop (length (m.get_data doc)) v.file.bytes),
          length-drop (length (m.get_data doc)) v.file.bytes,
          v.room_left,
        );
        header_fits = v.header_fits;
        size_t = v.size_t;
        writer_version = omega (arith, v.writer_version);
        reader_version = v.reader_version;
        latest = v.latest;
        content = (
          omega (arith, v.writer_version),
          refl,
          take-append_left (bytes_of b blank stale m p) _,
          readable,
        );
      },
    )
      where
        doc : Doc
        doc = packed_of b p.meta p.msg

    -- What a poll leads to.
    abbrev Polled : Register Doc → Type 0
    Polled r' =
        (s' : Pair Doc) × (step b blank stale m polled s ≡ some s')
        × Represents b blank stale m capacity r' s'

    pub available :
        update_available s.reader s.files
        ≡ some (not (v.file.version == s.reader.current_version) && not (v.file.size == 0))
    available =
        update_available_lem m s.reader v.name s.files v.file v.reader_backing v.found v.reader_mode

    abbrev pub reader_after : Packet Doc → Splat Doc
    reader_after p = record s.reader {
      current_version = v.file.version;
      latest = some (arrived b blank stale m p);
    }

    pub poll_shows :
        (p : Packet Doc)
        → IsContent b blank stale m (some p) r.pushes v.file
        → poll b blank stale m s.reader s.files ≡ some (reader_after p)
    poll_shows p (version, size, bytes, (full, read)) =
        poll_lem b blank stale m s.reader v.name s.files v.file (packed_of b p.meta p.msg)
          (record {
            meta = p.meta;
            msg = p.msg;
            packed = some (packed_of b p.meta p.msg);
            local_only = stale;
          })
          v.reader_backing v.found v.reader_mode (ap (λ t. m.read t) bytes ∙ read)
          (parse-packed_of b blank stale p.meta p.msg)

    unchanged : update_available s.reader s.files ≡ some false → Polled r
    unfolding step poll_update
    unchanged e = (s, ground arith, v)

    changed :
        (p : Packet Doc)
        → r.held ≡ some p
        → IsContent b blank stale m (some p) r.pushes v.file
        → update_available s.reader s.files ≡ some true
        → Polled (record r { seen = r.pushes; shown = some (arrived b blank stale m p) })
    unfolding step poll_update
    changed p e (version, size, bytes, (full, read)) new = (
      record s { reader = reader_after p },
      step_shows,
      record {
        name = v.name;
        file = v.file;
        writer_mode = v.writer_mode;
        reader_mode = v.reader_mode;
        writer_backing = v.writer_backing;
        reader_backing = v.reader_backing;
        writer_size = v.writer_size;
        found = v.found;
        room_left = v.room_left;
        header_fits = v.header_fits;
        size_t = v.size_t;
        writer_version = v.writer_version;
        reader_version = version;
        latest = refl;
        content = v.content;
      },
    )
      where
        step_shows : step b blank stale m polled s ≡ some (record s { reader = reader_after p })
        step_shows = ground (arith, poll_shows p (version, size, bytes, (full, read)), new)

    look-none : r.held ≡ none → look b blank stale m r ≡ r
    unfolding look
    look-none e = ground arith

    look_same :
        (p : Packet Doc)
        → r.held ≡ some p
        → r.pushes % 2 ^ 32 ≡ r.seen % 2 ^ 32
        → look b blank stale m r ≡ r
    unfolding look
    look_same p e same = ground arith

    look_new :
        (p : Packet Doc)
        → r.held ≡ some p
        → r.pushes % 2 ^ 32 ≢ r.seen % 2 ^ 32
        → look b blank stale m r
          ≡ record r { seen = r.pushes; shown = some (arrived b blank stale m p) }
    unfolding look
    look_new p e new = ground arith

    -- A look at a register that holds `h`.
    look_at :
        (h : Option (Packet Doc))
        → r.held ≡ h
        → IsContent b blank stale m h r.pushes v.file
        → Polled (look b blank stale m r)
    look_at none e c = subst Polled (sym (look-none e)) (unchanged (ground (arith, available)))
    look_at (some p) e c = elim (ℕ_discrete (r.pushes % 2 ^ 32) (r.seen % 2 ^ 32)) [
      | yes same ↦
          subst Polled (sym (look_same p e same))
            (unchanged (ground (arith, available, v.reader_version, c)))
      | no new ↦
          subst Polled (sym (look_new p e new))
            (changed p e c (ground (arith, available, v.reader_version, c)))
    ]

    pub poll-Represents : Polled (look b blank stale m r)
    poll-Represents = look_at r.held refl v.content
