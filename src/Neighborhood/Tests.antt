-- ===== src/Neighborhood/Tests.antt =====
-- Runs of the splats of a node.
use daylite.Prelude.{
  ◌≡◌, ◌↔◌, ◌≤◌, ◌*◌, ◌+◌, refl, [], ◌∷◌, none, some, true, false, arith, String-discrete,
}
use daylite.Prelude.Assoc.{lookup}
use daylite.Outcome.{done}
use daylite.Packet.{Meta, packed_of, build}
use daylite.Packet.Sample.{SampleDoc, sample, meta_of}
use daylite.Node.{Counts, SplatInfo}
use daylite.Splat.{Splat, Files, subscribes, splat, create, connect, update_available}
use daylite.Splat.Registers.{Pair, Represents}
use daylite.Splat.Sharing.{shared, granted, empty_register, shared-Represents}
use daylite.Splat.Sample.{small, large, sample_memory}
use daylite.Neighborhood.{Splats, Shared, push_splat, update_splat}
use daylite.Neighborhood.Opened.{announced, withdrawn, hear_all, AreOpen, hear_all-AreOpen}
use daylite.Neighborhood.Delivery.{update_splat-push_splat}
use daylite.Neighborhood.Loss.{connect_loses, push_splat_limit}

abbrev blank : Meta
blank = meta_of "" false 0 []

abbrev info : SplatInfo
info = record { node_id = 1; topic = "a/b"; size = 200 }

abbrev nothing : Splats SampleDoc
nothing = record { own = []; remote = [] }

hear_all-AreOpen_example :
    (after : Shared SampleDoc) × (hear_all sample_memory
        (announced (granted 3) info ∷ announced (granted 4) info ∷ withdrawn (granted 4) info ∷ [])
        (nothing, [])
      ≡ some after)
    × AreOpen subscribes after.0.remote
hear_all-AreOpen_example =
    hear_all-AreOpen sample_memory
      (announced (granted 3) info ∷ announced (granted 4) info ∷ withdrawn (granted 4) info ∷ [])
      nothing [] tt

-- Node 1 publishes "a/b", and another node is connected.
abbrev pair : Pair SampleDoc
pair = shared sample blank false sample_memory 3 1 "a/b" 200 []

pair-Represents :
    Represents sample blank false sample_memory 200
      (empty_register sample blank false sample_memory)
      pair
pair-Represents =
    shared-Represents sample blank false sample_memory 3 1 "a/b" 200 [] (omega arith) (omega arith)

abbrev counts : Counts
counts = ("a/b", 1) ∷ []

abbrev publishing : Splats SampleDoc
publishing = record { own = ("a/b", pair.writer) ∷ []; remote = [] }

update_splat-push_splat_example :
    (st' : Splats SampleDoc) × (files : Files) × (reader : Splat SampleDoc) × (push_splat
        sample_memory
        (granted 5)
        1
        counts
        (build sample small)
        (publishing, pair.files)
      ≡ some (done, false, (st', files)))
    × (update_splat sample blank false sample_memory counts files pair.reader
        ≡ some (
          record small { packed = some (packed_of sample small.meta small.msg); local_only = true }
              ∷ [],
          reader,
        ))
    × (update_splat sample blank false sample_memory counts files reader ≡ some ([], reader))
unfolding packed_of shared create connect splat lookup
update_splat-push_splat_example =
    update_splat-push_splat sample blank false sample_memory (granted 5) 1 1 1 200 counts counts
      publishing (empty_register sample blank false sample_memory) pair small pair-Represents refl
      (omega arith) refl refl (omega arith) (omega arith, refl) (λ e. cc)

connect_loses_example :
    let (ret, reader, files) = connect sample_memory (granted 7) 200 (splat 1 "a/b") pair.files in
    (update_available reader files ≡ some false) × (update_available pair.reader files ≡ some false)
unfolding shared create connect splat
connect_loses_example =
    connect_loses sample blank false sample_memory 7 1 "a/b" 200
      (empty_register sample blank false sample_memory) pair pair-Represents refl

push_splat_limit_example :
    (after : Shared SampleDoc) × (push_splat sample_memory
        (granted 3)
        1
        counts
        (build sample small)
        (nothing, [])
      ≡ some (done, true, after))
    × ((push_splat sample_memory (granted 3) 1 counts (build sample large) after ≡ none)
        ↔ (50 * 2 ≤ 100 + 48))
unfolding packed_of build lookup String-discrete
push_splat_limit_example =
    push_splat_limit sample_memory 3 1 1 counts nothing [] (build sample small)
      (packed_of sample small.meta small.msg) refl (omega arith) (omega arith) refl refl
      (omega arith) (granted 3) (build sample large) (packed_of sample large.meta large.msg) refl
      refl
