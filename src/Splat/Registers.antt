-- ===== src/Splat/Registers.antt =====
-- A publisher's splat and a reader's over one file, against a register that holds one packet.
use daylite.Prelude.{
  ℕ, ◌+◌, ◌-◌, ◌%◌, ◌^◌, ◌<◌, ◌≤◌, ◌==◌, ◌≡◌, Bool, true, false, Option, none, some, List, [], ◌∷◌,
  length, take, if◌then◌else◌,
}
use daylite.Prelude.Assoc.{lookup}
use daylite.Packet.{Bson, Meta, Packet, packed_of, build}
use daylite.Splat.{
  Splat, SplatData, Files, FileName, FileName-discrete, Memory, mapped, publishes, subscribes, push,
  poll, update_available,
}

-- The two splats and the files.
pub record Pair (Doc : Type 0) : Type 0 where
  pub writer : Splat Doc
  pub reader : Splat Doc
  pub files : Files

-- A register: the packet that it holds, how often one was put in, how often that was at the last
-- look, and what was seen then.
pub record Register (Doc : Type 0) : Type 0 where
  pub held : Option (Packet Doc)
  pub pushes : ℕ
  pub seen : ℕ
  pub shown : Option (Packet Doc)

-- A packet is built before it is pushed. The reader polls as node_impl::update_splats does.
pub data Event (Doc : Type 0) : Type 0 where
  pushed : Packet Doc → Event Doc
  polled : Event Doc

module _ (b : Bson) (blank : Meta) (stale : Bool) (m : Memory b.Doc) where
  open b use {Doc}

  unfoldable pub poll_update : Splat Doc → Files → Option (Splat Doc)
  unfolding poll update_available
  poll_update s files = elim (update_available s files) [
    | none ↦ none
    | some false ↦ some s
    | some true ↦ poll b blank stale m s files
  ]

  abbrev pub with_writer : Pair Doc → Option (Splat Doc × Files) → Option (Pair Doc)
  with_writer s none = none
  with_writer s (some (w, files)) = some (record s { writer = w; files = files })

  abbrev pub with_reader : Pair Doc → Option (Splat Doc) → Option (Pair Doc)
  with_reader s none = none
  with_reader s (some r) = some (record s { reader = r })

  unfoldable pub step : Event Doc → Pair Doc → Option (Pair Doc)
  unfolding push poll_update build
  step (pushed p) s = with_writer s (push m (build b p) s.writer s.files)
  step polled s = with_reader s (poll_update s.reader s.files)

  unfoldable pub run : List (Event Doc) → Pair Doc → Option (Pair Doc)
  unfolding step
  run [] s = some s
  run (e ∷ es) s = elim (step e s) [ none ↦ none | some s' ↦ run es s' ]

  -- What a reader has of a packet.
  abbrev pub arrived : Packet Doc → Packet Doc
  arrived p = record p { packed = some (packed_of b p.meta p.msg); local_only = true }

  abbrev pub bytes_of : Packet Doc → List ℕ
  bytes_of p = m.get_data (packed_of b p.meta p.msg)

  unfoldable pub look : Register Doc → Register Doc
  look r = elim r.held [
    | none ↦ r
    | some p ↦
        if r.pushes % 2 ^ 32 == r.seen % 2 ^ 32
        then r
        else record r { seen = r.pushes; shown = some (arrived p) }
  ]

  unfoldable pub register_step : Event Doc → Register Doc → Register Doc
  unfolding look
  register_step (pushed p) r = record r { held = some p; pushes = r.pushes + 1 }
  register_step polled r = look r

  unfoldable pub register_run : List (Event Doc) → Register Doc → Register Doc
  unfolding register_step
  register_run [] r = r
  register_run (e ∷ es) r = register_run es (register_step e r)

  -- libbson reads the packet's document back from its bytes, of which there are some.
  abbrev pub IsReadable : Packet Doc → Type 0
  IsReadable p = (0 < length (bytes_of p)) × (m.read (bytes_of p) ≡ some (packed_of b p.meta p.msg))

  -- What the file holds when the register holds a packet or none.
  abbrev pub IsContent : Option (Packet Doc) → ℕ → SplatData → Type 0
  IsContent none pushes d = d.size ≡ 0
  IsContent (some p) pushes d =
      (d.version ≡ pushes % 2 ^ 32)
      × (d.size ≡ length (bytes_of p))
      × (take d.size d.bytes ≡ bytes_of p)
      × IsReadable p

  -- The file and the two splats stand for the register; `capacity` is the size of the mapping.
  pub record Represents (capacity : ℕ) (r : Register Doc) (s : Pair Doc) : Type 0 where
    pub name : FileName
    pub file : SplatData
    pub writer_mode : s.writer.mode ≡ publishes
    pub reader_mode : s.reader.mode ≡ subscribes
    pub writer_backing : s.writer.backing ≡ mapped name
    pub reader_backing : s.reader.backing ≡ mapped name
    pub writer_size : s.writer.size ≡ capacity
    pub found : lookup FileName-discrete name s.files ≡ some file
    pub room_left : length file.bytes ≡ capacity - m.header
    pub header_fits : m.header ≤ capacity
    pub size_t : capacity < 2 ^ 64
    pub writer_version : s.writer.current_version ≡ r.pushes % 2 ^ 32
    pub reader_version : s.reader.current_version ≡ r.seen % 2 ^ 32
    pub latest : s.reader.latest ≡ r.shown
    pub content : IsContent r.held r.pushes file
