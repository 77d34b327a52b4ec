-- ===== src/Packet/RoundTrip.antt =====
-- What a packet is after it was built, sent and parsed.
use mathlib.Core.Path.{subst}
use mathlib.Core.Option.{some-injective}
use daylite.Prelude.{◌≡◌, Bool, Option, none, some, [], ◌∷◌}
use daylite.Packet.{Packet, Meta, Bson, Value, document, parse, packed_of, build}

module _ (b : Bson) (blank : Meta) (stale : Bool) where
  open b use {Doc, fields, of_fields, unbind_meta, bind_meta, fields-of_fields, unbind-bind}

  pub parse-packed_of :
      (m : Meta) (msg : Option Doc)
      → parse b blank stale (packed_of b m msg)
        ≡ some
            (record { meta = m; msg = msg; packed = some (packed_of b m msg); local_only = stale })
  unfolding parse packed_of
  parse-packed_of m none = rw (fields-of_fields _, parse, unbind-bind m)
  parse-packed_of m (some d) = rw (fields-of_fields _, parse, unbind-bind m)

  -- A document that `build` made parses to the packet that it was made of: the whole meta and the
  -- message, and the flag `local_only` as its memory happened to be, not as the sender had it.
  pub parse-build :
      (p : Packet Doc) (d : Doc)
      → (build b p).packed ≡ some d
      → parse b blank stale d
        ≡ some (record { meta = p.meta; msg = p.msg; packed = some d; local_only = stale })
  unfolding build
  parse-build p d e =
      subst
        (λ d.
          parse b blank stale d
          ≡ some (record { meta = p.meta; msg = p.msg; packed = some d; local_only = stale }))
        (some-injective _ _ e) (parse-packed_of p.meta p.msg)

  -- The fields "meta" and "msg" are looked for in one pass: of a document that has "msg" before "meta"
  -- the message is lost, whatever it holds.
  pub parse_msg_first :
      (m : Meta) (v : Value Doc)
      → parse b blank stale (of_fields (("msg", v) ∷ ("meta", document (bind_meta m)) ∷ []))
        ≡ some (record {
          meta = m;
          msg = none;
          packed = some (of_fields (("msg", v) ∷ ("meta", document (bind_meta m)) ∷ []));
          local_only = stale;
        })
  unfolding parse
  parse_msg_first m v = rw (fields-of_fields _, parse, unbind-bind m)
