-- ===== src/Packet.antt =====
-- libdaylite/src/packet.hpp and packet.cpp, with the messages meta and network_time of
-- libdaylite/msgs. `packet()`, whose flag `_null` is set, is the `none` of an `Option (Packet Doc)`.
pub mod RoundTrip
pub mod Sample
mod Tests
use daylite.Prelude.{
  ℕ, ◌≡◌, Bool, true, false, Option, none, some, List, [], ◌∷◌, String, ite, String-discrete,
  if◌then◌else◌,
}

pub record NetworkTime : Type 0 where
  pub seconds : ℕ
  pub microseconds : ℕ

pub record Meta : Type 0 where
  pub topic : String
  pub stamp : NetworkTime
  pub origin_id : ℕ
  pub id : ℕ
  pub path : List ℕ
  pub droppable : Bool

pub record Packet (Doc : Type 0) : Type 0 where
  pub meta : Meta
  pub msg : Option Doc
  pub packed : Option Doc
  pub local_only : Bool

-- What an iterator over a BSON document finds.
pub data Value (Doc : Type 0) : Type 0 where
  document : Doc → Value Doc
  undefined : Value Doc
  other : ℕ → Value Doc

-- libbson and the code that bsonbind generates. `fields` is `none` for data that no iterator can be
-- made of, and `unbind_meta` for a document that lacks a required field.
pub record Bson : Type 1 where
  pub Doc : Type 0
  pub fields : Doc → Option (List (String × Value Doc))
  pub of_fields : List (String × Value Doc) → Doc
  pub bind_meta : Meta → Doc
  pub unbind_meta : Doc → Option Meta
  pub fields-of_fields : (l : List (String × Value Doc)) → fields (of_fields l) ≡ some l
  pub unbind-bind : (m : Meta) → unbind_meta (bind_meta m) ≡ some m

-- bson_iter_find: on to the next field of that name; the search goes on behind it.
unfoldable pub iter_find {ℓ} :
    {V : Type ℓ} → String → List (String × V) → Option (V × List (String × V))
unfolding String-discrete
iter_find k [] = none
iter_find k ((j, v) ∷ it) = ite (String-discrete j k) (some (v, it)) (iter_find k it)

module _ (b : Bson) where
  open b use {Doc, fields, of_fields, bind_meta, unbind_meta}

  -- What a freshly constructed packet holds before its constructor's body: `blank` is the default
  -- `meta`, and `stale` the flag `_local_only`, which the constructor from a document never sets.
  with_meta : Doc → Bool → Meta → Option Doc → Packet Doc
  with_meta packed stale m msg = record {
    meta = m;
    msg = msg;
    packed = some packed;
    local_only = stale;
  }

  -- After the meta was read. A field "msg" that is no document is reported and leaves no message.
  parse_msg : Doc → Bool → Meta → List (String × Value Doc) → Packet Doc
  unfolding with_meta iter_find
  parse_msg packed stale m it = elim (iter_find "msg" it) [
    | none ↦ with_meta packed stale m none
    | some (document d, rest) ↦ with_meta packed stale m (some d)
    | some (undefined, rest) ↦ with_meta packed stale m none
    | some (other t, rest) ↦ with_meta packed stale m none
  ]

  -- packet(const bson &packed_msg). `none` is the exception that `meta::unbind` throws.
  unfoldable pub parse : Meta → Bool → Doc → Option (Packet Doc)
  unfolding parse_msg
  parse blank stale packed = elim (fields packed) [
    | none ↦ some (with_meta packed stale blank none)
    | some it ↦ elim (iter_find "meta" it) [
      | none ↦ some (with_meta packed stale blank none)
      | some (document d, rest) ↦ elim (unbind_meta d) [
        | none ↦ none
        | some m ↦ some (parse_msg packed stale m rest)
      ]
      | some (undefined, rest) ↦ some (parse_msg packed stale blank rest)
      | some (other t, rest) ↦ some (parse_msg packed stale blank rest)
    ]
  ]

  -- The document that `build` makes of a packet's meta and message.
  unfoldable pub packed_of : Meta → Option Doc → Doc
  packed_of m none = of_fields (("meta", document (bind_meta m)) ∷ ("msg", undefined) ∷ [])
  packed_of m (some d) = of_fields (("meta", document (bind_meta m)) ∷ ("msg", document d) ∷ [])

  -- packet::build
  unfoldable pub build : Packet Doc → Packet Doc
  unfolding packed_of
  build p = record p { packed = some (packed_of p.meta p.msg) }

  -- packet(topic, stamp, raw_msg, autobuild). The fields of the meta that it does not set are those
  -- of `blank`.
  unfoldable pub make : Meta → String → NetworkTime → Option Doc → Bool → Packet Doc
  unfolding build
  make blank topic stamp raw_msg autobuild = if autobuild then build fresh else fresh
    where
      fresh : Packet Doc
      fresh = record {
        meta = record blank { topic = topic; stamp = stamp; droppable = false };
        msg = raw_msg;
        packed = none;
        local_only = false;
      }
