-- ===== src/Splat/Bounds.antt =====
-- What a push writes, and where.
use daylite.Prelude.{
  ℕ, zero, suc, ap, ◌+◌, ◌-◌, ◌%◌, ◌^◌, ◌<◌, ◌≤◌, ◌==◌, ◌≡◌, refl, Bool, true, some, ◌++◌, length,
  take, drop, not, ◌&&◌, arith,
}
use daylite.Prelude.Assoc.{lookup, put}
use daylite.Packet.{Bson, Meta, Packet, parse}
use daylite.Splat.{
  zeros, Splat, SplatData, Files, FileName, FileName-discrete, Memory, mapped, publishes,
  subscribes, data_of, store, push, poll, update_available, room, write,
}

pub length-zeros : (n : ℕ) → length (zeros n) ≡ n
length-zeros zero = refl
length-zeros (suc n) = ap suc (length-zeros n)

module _ {Doc : Type 0} (m : Memory Doc) where
  -- The size of a document is compared with what the mapping has behind its header.
  pub room_lem :
      (s : Splat Doc) → m.header ≤ s.size → s.size < 2 ^ 64 → room m s ≡ s.size - m.header
  unfolding room
  room_lem s h k = omega arith

  abbrev pub after_push : Splat Doc → Splat Doc
  after_push s = record s { current_version = (s.current_version + 1) % 2 ^ 32 }

  abbrev pub written : Doc → Splat Doc → SplatData → SplatData
  written doc s d = record {
    version = (s.current_version + 1) % 2 ^ 32;
    size = length (m.get_data doc);
    bytes = m.get_data doc ++ drop (length (m.get_data doc)) d.bytes;
  }

  module _ (s : Splat Doc) (name : FileName) (files : Files) (d : SplatData)
      (there : s.backing ≡ mapped name) (found : lookup FileName-discrete name files ≡ some d) where
    data_of_mapped : data_of s files ≡ some d
    unfolding data_of
    data_of_mapped = rw there found

    store_mapped : (e : SplatData) → store s e files ≡ put FileName-discrete name e files
    unfolding store
    store_mapped e = rw there refl

    pub push_fits :
        (p : Packet Doc) (doc : Doc)
        → s.mode ≡ publishes
        → p.packed ≡ some doc
        → length (m.get_data doc) < room m s
        → length (m.get_data doc) ≤ length d.bytes
        → push m p s files ≡ some (after_push s, put FileName-discrete name (written doc s d) files)
    unfolding push write
    push_fits p doc mode packed fits le =
        ground (arith, data_of_mapped, store_mapped (written doc s d))

    pub update_available_lem :
        s.mode ≡ subscribes
        → update_available s files
          ≡ some (not (d.version == s.current_version) && not (d.size == 0))
    unfolding update_available
    update_available_lem mode = ground (arith, data_of_mapped)

module _ (b : Bson) (blank : Meta) (stale : Bool) (m : Memory b.Doc) where
  pub poll_lem :
      (s : Splat b.Doc) (name : FileName) (files : Files) (d : SplatData) (doc : b.Doc)
      (p : Packet b.Doc)
      → s.backing ≡ mapped name
      → lookup FileName-discrete name files ≡ some d
      → s.mode ≡ subscribes
      → m.read (take d.size d.bytes) ≡ some doc
      → parse b blank stale doc ≡ some p
      → poll b blank stale m s files
        ≡ some (record s {
          current_version = d.version;
          latest = some (record p { local_only = true });
        })
  unfolding poll
  poll_lem s name files d doc p there found mode read parsed =
      ground (arith, data_of_mapped m s name files d there found)
