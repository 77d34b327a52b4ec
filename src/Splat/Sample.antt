-- ===== src/Splat/Sample.antt =====
-- Two packets and a memory that the examples with splats use.
use daylite.Prelude.{ℕ, zero, suc, List, [], ◌∷◌, Option, none, some, true, false}
use daylite.Packet.{Packet, packed_of}
use daylite.Packet.Sample.{
  SampleDoc, info_doc, empty, meta_doc, with_document, with_undefined, with_other, sample, meta_of,
}
use daylite.Splat.{Memory}

abbrev pub small : Packet SampleDoc
small = record { meta = meta_of "a/b" true 1 []; msg = none; packed = none; local_only = false }

abbrev pub large : Packet SampleDoc
large = record {
  meta = meta_of "a/b" true 1 [];
  msg = some empty;
  packed = none;
  local_only = false;
}

abbrev pub document_of : Packet SampleDoc → SampleDoc
document_of p = packed_of sample p.meta p.msg

abbrev copies : ℕ → ℕ → List ℕ
copies zero x = []
copies (suc n) x = x ∷ copies n x

-- A document without a message has fifty bytes, one with a message a hundred.
abbrev get_data : SampleDoc → List ℕ
get_data empty = []
get_data (meta_doc m) = []
get_data (info_doc i) = []
get_data (with_undefined k rest) = []
get_data (with_other k t rest) = []
get_data (with_document k d (with_undefined j rest)) = copies 50 1
get_data (with_document k d empty) = []
get_data (with_document k d (meta_doc m)) = []
get_data (with_document k d (info_doc i)) = []
get_data (with_document k d (with_other j t rest)) = []
get_data (with_document k d (with_document j e rest)) = copies 100 2

abbrev read : List ℕ → Option SampleDoc
read [] = none
read (zero ∷ bytes) = none
read (suc zero ∷ bytes) = some (document_of small)
read (suc (suc n) ∷ bytes) = some (document_of large)

abbrev pub sample_memory : Memory SampleDoc
sample_memory = record { header = 48; get_data = get_data; read = read }
