-- ===== src/Packet/Tests.antt =====
-- Packets at concrete inputs.
use daylite.Prelude.{◌≡◌, refl, true, false, none, some, [], ◌∷◌}
use daylite.Packet.{Packet, Meta, packed_of, build, parse}
use daylite.Packet.RoundTrip.{parse-build}
use daylite.Packet.Sample.{SampleDoc, empty, sample, meta_of}

abbrev blank : Meta
blank = meta_of "" false 0 []

abbrev local : Packet SampleDoc
local = record {
  meta = meta_of "sonar" true 3 (3 ∷ []);
  msg = some empty;
  packed = none;
  local_only = true;
}

parse-build_example :
    parse sample blank false (packed_of sample local.meta local.msg)
    ≡ some (record {
      meta = local.meta;
      msg = some empty;
      packed = some (packed_of sample local.meta local.msg);
      local_only = false;
    })
parse-build_example =
    parse-build sample blank false local (packed_of sample local.meta local.msg) packed
  where
    packed : (build sample local).packed ≡ some (packed_of sample local.meta local.msg)
    packed = unfold build in refl
