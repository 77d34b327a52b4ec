-- ===== src/Splat.antt =====
-- libdaylite/src/splat.hpp and splat.cpp, the shared memory that SPLAT_ENABLED compiles in: one file
-- per node and topic, mapped by the node that publishes and by those that read. The mutex in the file
-- makes each push and each poll one step. A failed assertion, a null pointer that is followed and a
-- write behind the mapping are `none`.
mod Names
pub mod Registers
pub mod Refine
pub mod Sharing
pub mod Sample
pub mod Bounds
mod Tests
unfoldable pub use Names.*
use Prim.Native.String.{◌++◌ as join}
use daylite.Prelude.{
  ℕ, zero, suc, ◌+◌, ◌-◌, ◌%◌, ◌^◌, ◌==◌, ltb, leb, Bool, true, false, not, ◌&&◌, Option, none,
  some, List, [], ◌∷◌, ◌++◌, String, String-discrete, ℕ_discrete, length, take, drop, if◌then◌else◌,
  ◌≡◌, ap,
}
use daylite.Prelude.Assoc.{lookup, put}
use daylite.Outcome.{VoidResult, ok, fail, done, failed}
use daylite.Packet.{Bson, Meta, Packet, parse}

pub data Backing : Type 0 where
  null : Backing
  map_failed : Backing
  mapped : FileName → Backing

pub data Mode : Type 0 where
  off publishes subscribes : Mode

abbrev pub is_off : Mode → Bool
is_off off = true
is_off publishes = false
is_off subscribes = false

pub record Splat (Doc : Type 0) : Type 0 where
  pub node_id : ℕ
  pub topic : String
  pub fd : Option ℕ
  pub backing : Backing
  pub size : ℕ
  pub current_version : ℕ
  pub latest : Option (Packet Doc)
  pub mode : Mode

-- What the system answers: `open` a descriptor or a negative number, `mmap` and `munmap` whether they
-- did it.
pub record Answers : Type 0 where
  pub opened : Option ℕ
  pub mapping_made : Bool
  pub mapping_undone : Bool

-- `sizeof(splat_data)`, which the platform says, and the bytes of documents: what libbson gives for a
-- document, and what its reader makes of memory.
pub record Memory (Doc : Type 0) : Type 0 where
  pub header : ℕ
  pub get_data : Doc → List ℕ
  pub read : List ℕ → Option Doc

abbrev pub zeros : ℕ → List ℕ
zeros zero = []
zeros (suc n) = 0 ∷ zeros n

module _ {Doc : Type 0} where
  unfoldable pub splat : ℕ → String → Splat Doc
  splat node_id topic = record {
    node_id = node_id;
    topic = topic;
    fd = none;
    backing = null;
    size = 0;
    current_version = 0;
    latest = none;
    mode = off;
  }

  abbrev pub is_on : Splat Doc → Bool
  is_on s = not (is_off s.mode)

  unfoldable pub file_name : Splat Doc → FileName
  unfolding fixed_topic
  file_name s = (s.node_id, fixed_topic s.topic)

  -- What the backing pointer points to.
  unfoldable pub data_of : Splat Doc → Files → Option SplatData
  unfolding lookup FileName-discrete
  data_of s files = elim s.backing [
    | null ↦ none
    | map_failed ↦ none
    | mapped name ↦ lookup FileName-discrete name files
  ]

  unfoldable pub store : Splat Doc → SplatData → Files → Files
  unfolding put FileName-discrete
  store s d files = elim s.backing [
    | null ↦ files
    | map_failed ↦ files
    | mapped name ↦ put FileName-discrete name d files
  ]

  -- A mapping of `size` bytes, all zero.
  unfoldable pub fresh : Memory Doc → ℕ → SplatData
  fresh m size = record { version = 0; size = 0; bytes = zeros (size - m.header) }

  -- The file is opened with O_TRUNC and made `size` bytes long before it is mapped.
  unfoldable pub map : Memory Doc → Answers → ℕ → Splat Doc → Files → VoidResult × Splat Doc × Files
  unfolding file_name put fresh FileName-discrete
  map m answers size s files = elim answers.opened [
    | none ↦ (failed (join "Failed to create " (path (file_name s))), record s { fd = none }, files)
    | some fd ↦
        let files' = put FileName-discrete (file_name s) (fresh m size) files in
        if answers.mapping_made
        then (done, record s { fd = some fd; backing = mapped (file_name s); size = size }, files')
        else (
          failed (join "Failed to memory map file " (path (file_name s))),
          record s { fd = none; backing = map_failed },
          files',
        )
  ]

  unfoldable pub unmap : Answers → Splat Doc → Option (VoidResult × Splat Doc)
  unmap answers s = elim s.fd [
    | none ↦ some (failed "fd is invalid", s)
    | some fd ↦ elim s.backing [
      | null ↦ none
      | map_failed ↦ none
      | mapped name ↦
          if answers.mapping_undone
          then some (done, record s { fd = none; backing = null; size = 0; mode = off })
          else some (failed "Memory un-mapping failed!", s)
    ]
  ]

  unfoldable pub close : Answers → Splat Doc → Option (VoidResult × Splat Doc)
  unfolding unmap
  close answers s = if is_off s.mode then none else unmap answers (record s { mode = off })

  -- The destructor. What close returns is not looked at; its assertion may fail.
  unfoldable pub destroy : Answers → Splat Doc → Option (Splat Doc)
  unfolding close
  destroy answers s =
      if is_off s.mode
      then some s
      else elim (close answers s) [ none ↦ none | some (r, s') ↦ some s' ]

  unfoldable pub create :
      Memory Doc → Answers → ℕ → Splat Doc → Files → VoidResult × Splat Doc × Files
  unfolding map store fresh
  create m answers max_size s files =
      let (ret, s', files') = map m answers max_size s files in
      elim ret [
        | fail e c ↦ (fail e c, s', files')
        | ok a e c ↦ (done, record s' { mode = publishes }, store s' (fresh m s'.size) files')
      ]

  unfoldable pub connect :
      Memory Doc → Answers → ℕ → Splat Doc → Files → VoidResult × Splat Doc × Files
  unfolding map
  connect m answers defined_max_size s files =
      let (ret, s', files') = map m answers defined_max_size s files in
      elim ret [
        | fail e c ↦ (fail e c, s', files')
        | ok a e c ↦ (ok a e c, record s' { mode = subscribes }, files')
      ]

  -- `size_t` subtraction, as in the assertion of push.
  unfoldable pub room : Memory Doc → Splat Doc → ℕ
  room m s = (s.size + 2 ^ 64 - m.header) % 2 ^ 64

  abbrev pub is_publisher : Splat Doc → Bool
  is_publisher s = elim s.mode [ off ↦ false | publishes ↦ true | subscribes ↦ false ]

  abbrev pub is_subscriber : Splat Doc → Bool
  is_subscriber s = elim s.mode [ off ↦ false | publishes ↦ false | subscribes ↦ true ]

  -- The bytes of a document into the file.
  unfoldable pub write : List ℕ → Splat Doc → Files → Option (Splat Doc × Files)
  unfolding data_of store
  write bytes s files = elim (data_of s files) [
    | none ↦ none
    | some d ↦
        let next = (s.current_version + 1) % 2 ^ 32 in
        if leb (length bytes) (length d.bytes)
        then some (
          record s { current_version = next },
          store s
              (record {
                version = next;
                size = length bytes;
                bytes = bytes ++ drop (length bytes) d.bytes;
              })
              files,
        )
        else none
  ]

  unfoldable pub push : Memory Doc → Packet Doc → Splat Doc → Files → Option (Splat Doc × Files)
  unfolding room write
  push m latest s files = elim latest.packed [
    | none ↦ none
    | some packed ↦
        if is_publisher s && ltb (length (m.get_data packed)) (room m s)
        then write (m.get_data packed) s files
        else none
  ]

  unfoldable pub update_available : Splat Doc → Files → Option Bool
  unfolding data_of
  update_available s files = elim (data_of s files) [
    | none ↦ none
    | some d ↦
        if is_subscriber s
        then some (not (d.version == s.current_version) && not (d.size == 0))
        else none
  ]

module _ (b : Bson) (blank : Meta) (stale : Bool) where
  open b use {Doc}

  -- The document is what the reader finds in the first `size` bytes; a null pointer for it, or the
  -- exception of the constructor of a packet, is `none`.
  unfoldable pub poll : Memory Doc → Splat Doc → Files → Option (Splat Doc)
  unfolding data_of
  poll m s files = elim (data_of s files) [
    | none ↦ none
    | some d ↦ elim (is_subscriber s) [
      | false ↦ none
      | true ↦ elim (m.read (take d.size d.bytes)) [
        | none ↦ none
        | some doc ↦ elim (parse b blank stale doc) [
          | none ↦ none
          | some p ↦ some (record s {
            current_version = d.version;
            latest = some (record p { local_only = true });
          })
        ]
      ]
    ]
  ]
