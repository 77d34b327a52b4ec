-- ===== src/Remote/Tests.antt =====
-- Remotes at concrete inputs.
use daylite.Prelude.{
  ℕ, ◌≤◌, ◌≡◌, refl, true, false, none, some, List, [], ◌∷◌, length, String-discrete,
}
use daylite.Prelude.Assoc.{lookup}
use daylite.Topic.{topic_eq}
use daylite.Packet.{Packet, build}
use daylite.Packet.Sample.{SampleDoc, sample, meta_of}
use daylite.Node.{Known, Counts, NodeInfo}
use daylite.Remote.{block_internal, on_path, found, stamped, send, insert_id, spin_update}
use daylite.Remote.Journey.{Journey, starts, hops, length-Journey}

abbrev packet : ℕ → List ℕ → Packet SampleDoc
packet id path = record {
  meta = meta_of "sonar" false id path;
  msg = none;
  packed = none;
  local_only = false;
}

abbrev counts : Counts
counts = ("sonar", 1) ∷ []

-- The second packet has been here.
abbrev arrivals : List (Packet SampleDoc)
arrivals = packet 2 (2 ∷ []) ∷ packet 3 (1 ∷ 3 ∷ []) ∷ packet 2 (4 ∷ 2 ∷ []) ∷ []

spin_update-arrivals :
    spin_update 1 arrivals [] ≡ (packet 2 (2 ∷ []) ∷ packet 2 (4 ∷ 2 ∷ []) ∷ [], 2 ∷ [])
unfolding spin_update found on_path insert_id
spin_update-arrivals = refl

-- Node 1 sends the packet, and node 2 passes it on.
abbrev hop1 : Packet SampleDoc
hop1 = packet 1 (1 ∷ [])

send-first :
    send sample 1 block_internal counts (packet 0 []) ≡ some (stamped sample 1 (packet 0 []))
unfolding send lookup String-discrete topic_eq
send-first = refl

send-second : send sample 2 block_internal counts hop1 ≡ some (stamped sample 2 hop1)
unfolding send lookup String-discrete topic_eq
send-second = refl

journey : Journey sample (1 ∷ 2 ∷ []) (stamped sample 2 hop1)
unfolding found on_path stamped build
journey =
    hops (1 ∷ []) (stamped sample 1 (packet 0 []))
      (starts 1 block_internal counts (packet 0 []) refl refl send-first) 2 block_internal counts
      hop1 refl refl refl send-second

length-Journey_example : length {A = ℕ} (1 ∷ 2 ∷ []) ≤ length {A = ℕ} (1 ∷ 2 ∷ 3 ∷ [])
length-Journey_example =
    length-Journey sample (1 ∷ 2 ∷ 3 ∷ []) (1 ∷ 2 ∷ []) (stamped sample 2 hop1) journey
      (unfold on_path in (refl, (refl, tt)))

-- Node 2, the only subscriber, goes.
abbrev peer : NodeInfo
peer = record {
  name = "peer";
  alive = true;
  id = 2;
  hosts = [];
  in_topics = "sonar" ∷ [];
  splats = [];
  out_topics = [];
}

abbrev known : Known
known = record { latest_info = (2, peer) ∷ []; subscription_count = counts; splat_count = [] }
