-- ===== src/Splat/Sharing.antt =====
-- A splat that a publisher created and a reader connected to, over any sequence of pushes and polls.
use daylite.Prelude.{
  sym, ◌∙◌, String, ℕ, ◌-◌, ◌^◌, ◌<◌, ◌≤◌, ◌≡◌, refl, Bool, true, none, some, List, [], ◌∷◌, length,
}
use daylite.Prelude.Assoc.{lookup-put_self}
use daylite.Packet.{Bson, Meta}
use daylite.Splat.{
  mapped, FileName, Answers, splat, create, connect, map, fresh, file_name, Files,
  FileName-discrete, Memory, store,
}
use daylite.Splat.Bounds.{length-zeros}
use daylite.Splat.Refine.{push-Represents, poll-Represents}
use daylite.Splat.Registers.{
  IsReadable, Pair, Register, Event, pushed, polled, run, bytes_of, register_run, Represents,
}

-- A system that does all that it is asked.
abbrev pub granted : ℕ → Answers
granted fd = record { opened = some fd; mapping_made = true; mapping_undone = true }

mapped_inj : {n k : FileName} → mapped n ≡ mapped k → n ≡ k
mapped_inj e = cc

module _ (b : Bson) (blank : Meta) (stale : Bool) (m : Memory b.Doc) where
  open b use {Doc}

  -- Each packet of the script fits behind the header, and can be read back.
  abbrev pub AllFit : ℕ → List (Event Doc) → Type 0
  AllFit capacity [] = Unit {0}
  AllFit capacity (pushed p ∷ es) =
      (length (bytes_of b blank stale m p) < capacity - m.header)
      × IsReadable b blank stale m p
      × AllFit capacity es
  AllFit capacity (polled ∷ es) = AllFit capacity es

  module _ (capacity : ℕ) where
    pub run-Represents :
        (es : List (Event Doc)) (r : Register Doc) (s : Pair Doc)
        → AllFit capacity es
        → Represents b blank stale m capacity r s
        → (s' : Pair Doc) × (run b blank stale m es s ≡ some s')
          × Represents b blank stale m capacity (register_run b blank stale m es r) s'
    unfolding run register_run
    run-Represents [] r s fit v = (s, refl, v)
    run-Represents (pushed p ∷ es) r s fit v =
        let (s', e, v') = push-Represents b blank stale m capacity r s v p fit.0 fit.1 in
        rw (e, run) (run-Represents es _ s' fit.2 v')
    run-Represents (polled ∷ es) r s fit v =
        let (s', e, v') = poll-Represents b blank stale m capacity r s v in
        rw (e, run) (run-Represents es _ s' fit v')

  abbrev pub empty_register : Register Doc
  empty_register = record { held = none; pushes = 0; seen = 0; shown = none }

  -- A publisher that creates the splat of its node and topic, and a reader that then connects to it.
  unfoldable pub shared : ℕ → ℕ → String → ℕ → Files → Pair Doc
  unfolding create connect splat
  shared fd id topic capacity files =
      let (r, w, made) = create m (granted fd) capacity (splat id topic) files in
      let (r', reader, joined) = connect m (granted fd) capacity (splat id topic) made in
      record { writer = w; reader = reader; files = joined }

  pub shared-Represents :
      (fd id : ℕ) (topic : String) (capacity : ℕ) (files : Files)
      → m.header ≤ capacity
      → capacity < 2 ^ 64
      → Represents b blank stale m capacity empty_register (shared fd id topic capacity files)
  unfolding shared create connect splat map fresh store
  shared-Represents fd id topic capacity files h k = record {
    name = file_name (splat {Doc = Doc} id topic);
    file = fresh m capacity;
    writer_mode = refl;
    reader_mode = refl;
    writer_backing = refl;
    reader_backing = refl;
    writer_size = refl;
    found = lookup-put_self FileName-discrete _ _ _;
    room_left = length-zeros (capacity - m.header);
    header_fits = h;
    size_t = k;
    writer_version = refl;
    reader_version = refl;
    latest = refl;
    content = refl;
  }

  -- Whatever is pushed and polled through a splat that one node created and another connected to, each
  -- packet of a size that fits behind the header and with bytes that libbson reads back, runs to its
  -- end, and the reader then has what it would have of a register that a push overwrites and that a poll
  -- looks at if the counts of pushes then and at the last look differ modulo 2 ^ 32.
  pub run_shows :
      (fd id : ℕ) (topic : String) (capacity : ℕ) (files : Files) (es : List (Event Doc))
      → m.header ≤ capacity
      → capacity < 2 ^ 64
      → AllFit capacity es
      → (s : Pair Doc) × (run b blank stale m es (shared fd id topic capacity files) ≡ some s)
        × (s.reader.latest ≡ (register_run b blank stale m es empty_register).shown)
  run_shows fd id topic capacity files es h k fit =
      let (s, e, v) =
        run-Represents capacity es empty_register (shared fd id topic capacity files) fit
          (shared-Represents fd id topic capacity files h k) in
      (s, e, v.latest)

  -- Another reader that connects to the file of a splat, of the same size, empties it: the writer and
  -- the readers that are there go on as if the register held nothing, and lose what they had not read.
  pub connect-Represents :
      (fd id : ℕ) (topic : String) (capacity : ℕ) (r : Register Doc) (s : Pair Doc)
      (v : Represents b blank stale m capacity r s)
      → s.writer.backing ≡ mapped (file_name (splat {Doc = Doc} id topic))
      → Represents b blank stale m capacity
          (record r { held = none })
          (record s { files = (connect m (granted fd) capacity (splat id topic) s.files).2 })
  unfolding connect map splat fresh
  connect-Represents fd id topic capacity r s v there = record {
    name = v.name;
    file = fresh m capacity;
    writer_mode = v.writer_mode;
    reader_mode = v.reader_mode;
    writer_backing = v.writer_backing;
    reader_backing = v.reader_backing;
    writer_size = v.writer_size;
    found = rw same (lookup-put_self FileName-discrete _ (fresh m capacity) s.files);
    room_left = length-zeros (capacity - m.header);
    header_fits = v.header_fits;
    size_t = v.size_t;
    writer_version = v.writer_version;
    reader_version = v.reader_version;
    latest = v.latest;
    content = refl;
  }
    where
      same : v.name ≡ file_name (splat {Doc = Doc} id topic)
      same = mapped_inj (sym v.writer_backing ∙ there)
