-- ===== src/Endpoint/Tests.antt =====
-- Publishers and subscribers at concrete inputs.
use daylite.Prelude.{ℕ, ◌≡◌, ◌≢◌, refl, true, false, none, some, [], ◌∷◌, String-discrete}
use daylite.Prelude.Assoc.{lookup}
use daylite.Outcome.{done, failed}
use daylite.Topic.{topic_eq}
use daylite.Packet.{NetworkTime, Meta, Packet, build, make, packed_of, parse}
use daylite.Packet.Sample.{SampleDoc, sample, empty, meta_of}
use daylite.Node.{Counts}
use daylite.Remote.{allow_internal, found, send, stamped}
use daylite.Endpoint.{Publisher, Subscriber, Home, prepared, publish, received}
use daylite.Endpoint.Journal.{meta_sent, published, message_arrives}

abbrev blank : Meta
blank = meta_of "" false 0 []

abbrev noon : NetworkTime
noon = record { seconds = 43_200; microseconds = 0 }

abbrev sonar : Publisher
sonar = record { topic = "sonar"; firehose = true; husk = false }

-- The mailbox keeps what it is given.
publish-husk :
    publish sample (λ p s. (p ∷ s, done)) (record sonar { husk = true }) 1 blank noon none []
    ≡ some ([], failed "Husk")
unfolding publish
publish-husk = refl

abbrev counts : Counts
counts = ("sonar", 1) ∷ []

abbrev wire : SampleDoc
wire = packed_of sample (meta_sent sonar 1 noon) (some empty)

message_arrives_example :
    (r : Packet SampleDoc) × (parse sample blank true wire ≡ some r)
    × (r.meta ≡ meta_sent sonar 1 noon)
    × ((peer : ℕ) → 1 ≢ peer → found peer r ≡ false)
    × ((s : Subscriber) → s.send_packed ≡ false → received sample s r ≡ some empty)
unfolding send lookup String-discrete topic_eq stamped build published prepared make
message_arrives_example =
    message_arrives sample blank 1 sonar noon (some empty) allow_internal counts
      (stamped sample 1 (published sample blank 1 sonar noon (some empty))) wire blank true refl
      refl refl

abbrev home : Home
home = record {
  registry = record {
    active_subscribers = [];
    active_publishers = 48 ∷ [];
    local_subscription_count = [];
  };
  mailman = ("sonar", (16, 16) ∷ []) ∷ [];
}
