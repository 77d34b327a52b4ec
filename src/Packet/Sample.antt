-- ===== src/Packet/Sample.antt =====
-- Documents as data, which the examples take for libbson's.
use daylite.Prelude.{ℕ, ◌≡◌, refl, ap, Option, none, some, List, [], ◌∷◌, String, Bool}
use daylite.Node.{NodeInfo}
use daylite.Packet.{Meta, Value, document, undefined, other, Bson}

pub data SampleDoc : Type 0 where
  empty : SampleDoc
  meta_doc : Meta → SampleDoc
  info_doc : NodeInfo → SampleDoc
  with_document : String → SampleDoc → SampleDoc → SampleDoc
  with_undefined : String → SampleDoc → SampleDoc
  with_other : String → ℕ → SampleDoc → SampleDoc

abbrev cons_field :
    String × Value SampleDoc
    → Option (List (String × Value SampleDoc))
    → Option (List (String × Value SampleDoc))
cons_field f none = none
cons_field f (some fs) = some (f ∷ fs)

abbrev fields : SampleDoc → Option (List (String × Value SampleDoc))
fields empty = some []
fields (meta_doc m) = some []
fields (info_doc i) = some []
fields (with_document k d rest) = cons_field (k, document d) (fields rest)
fields (with_undefined k rest) = cons_field (k, undefined) (fields rest)
fields (with_other k t rest) = cons_field (k, other t) (fields rest)

abbrev of_fields : List (String × Value SampleDoc) → SampleDoc
of_fields [] = empty
of_fields ((k, document d) ∷ fs) = with_document k d (of_fields fs)
of_fields ((k, undefined) ∷ fs) = with_undefined k (of_fields fs)
of_fields ((k, other t) ∷ fs) = with_other k t (of_fields fs)

pub fields-of_fields : (l : List (String × Value SampleDoc)) → fields (of_fields l) ≡ some l
fields-of_fields [] = refl
fields-of_fields ((k, document d) ∷ fs) = ap (cons_field (k, document d)) (fields-of_fields fs)
fields-of_fields ((k, undefined) ∷ fs) = ap (cons_field (k, undefined)) (fields-of_fields fs)
fields-of_fields ((k, other t) ∷ fs) = ap (cons_field (k, other t)) (fields-of_fields fs)

abbrev unbind_meta : SampleDoc → Option Meta
unbind_meta (meta_doc m) = some m
unbind_meta (info_doc i) = none
unbind_meta empty = none
unbind_meta (with_document k d rest) = none
unbind_meta (with_undefined k rest) = none
unbind_meta (with_other k t rest) = none

abbrev pub sample : Bson
sample = record {
  Doc = SampleDoc;
  fields = fields;
  of_fields = of_fields;
  bind_meta = meta_doc;
  unbind_meta = unbind_meta;
  fields-of_fields = fields-of_fields;
  unbind-bind = λ m. refl;
}

-- The meta of the examples' packets.
abbrev pub meta_of : String → Bool → ℕ → List ℕ → Meta
meta_of topic droppable id path = record {
  topic = topic;
  stamp = record { seconds = 0; microseconds = 0 };
  origin_id = 0;
  id = id;
  path = path;
  droppable = droppable;
}
