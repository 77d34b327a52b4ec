-- ===== src/Splat/Tests.antt =====
-- Runs of splat.cpp.
use daylite.Prelude.{◌≡◌, refl, List, [], ◌∷◌, some, false, arith}
use daylite.Packet.{packed_of}
use daylite.Packet.Sample.{SampleDoc, sample, meta_of}
use daylite.Splat.{splat, file_name, fixed_topic, path}
use daylite.Splat.Registers.{Event, pushed, polled, Pair, run, register_run}
use daylite.Splat.Sharing.{shared, empty_register, run_shows}
use daylite.Splat.Sample.{small, large, sample_memory}

-- Topics that differ may have one file.
names_meet :
    file_name (splat {Doc = SampleDoc} 1 "a/b") ≡ file_name (splat {Doc = SampleDoc} 1 "a!b")
unfolding file_name fixed_topic splat
names_meet = refl

path_made : path (42, "a!b") ≡ "/tmp/42-a!b.splat"
unfolding path
path_made = refl

script : List (Event SampleDoc)
script = pushed small ∷ polled ∷ pushed large ∷ polled ∷ []

run_shows_example :
    (s : Pair SampleDoc) × (run sample
        (meta_of "" false 0 [])
        false
        sample_memory
        script
        (shared sample (meta_of "" false 0 []) false sample_memory 3 1 "a/b" 200 [])
      ≡ some s)
    × (s.reader.latest
        ≡ (register_run sample
            (meta_of "" false 0 [])
            false
            sample_memory
            script
            (empty_register sample (meta_of "" false 0 []) false sample_memory)).shown)
unfolding script packed_of
run_shows_example =
    run_shows sample (meta_of "" false 0 []) false sample_memory 3 1 "a/b" 200 [] script
      (omega arith) (omega arith)
      (omega arith, (omega arith, refl), (omega arith, (omega arith, refl), tt))
