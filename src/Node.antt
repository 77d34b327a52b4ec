-- ===== src/Node.antt =====
-- libdaylite/src/node_impl.cpp, built as by default without SPLAT_ENABLED: what a node knows of the
-- others, its own subscribers and publishers, and the messages node_info, splat_info and
-- network_interface of libdaylite/msgs.
pub mod Counter
pub mod Tally
pub mod Subscriptions
pub mod Announce
pub mod Gossip
pub mod Control
mod Tests
use daylite.Prelude.{
  ℕ, ◌+◌, ◌-◌, ◌%◌, ◌^◌, ◌==◌, Bool, true, false, not, ◌&&◌, Option, none, some, List, [], ◌∷◌,
  ◌++◌, map, String, String-discrete, ℕ_discrete, ite, if◌then◌else◌,
}
use daylite.Prelude.Assoc.{lookup, put}

pub record NetworkInterface : Type 0 where
  pub name : String
  pub address : String
  pub netmask : String
  pub port : Option ℕ

pub record SplatInfo : Type 0 where
  pub node_id : ℕ
  pub topic : String
  pub size : ℕ

pub record NodeInfo : Type 0 where
  pub name : String
  pub alive : Bool
  pub id : ℕ
  pub hosts : List NetworkInterface
  pub in_topics : List String
  pub splats : List SplatInfo
  pub out_topics : List String

-- `std::unordered_map<std::string, uint32_t>`, whose operator[] starts at 0.
abbrev pub Counts : Type 0
Counts = List (String × ℕ)

abbrev pub or_zero : Option ℕ → ℕ
or_zero none = 0
or_zero (some n) = n

unfoldable pub get : String → Counts → ℕ
unfolding lookup String-discrete
get t m = or_zero (lookup String-discrete t m)

-- ++m[t]
unfoldable pub increment : String → Counts → Counts
unfolding get put String-discrete
increment t m = put String-discrete t ((get t m + 1) % 2 ^ 32) m

-- --m[t]
unfoldable pub decrement : String → Counts → Counts
unfolding get put String-discrete
decrement t m = put String-discrete t ((get t m + 2 ^ 32 - 1) % 2 ^ 32) m

unfoldable pub increment_all : List String → Counts → Counts
unfolding increment
increment_all [] m = m
increment_all (t ∷ ts) m = increment_all ts (increment t m)

unfoldable pub decrement_all : List String → Counts → Counts
unfolding decrement
decrement_all [] m = m
decrement_all (t ∷ ts) m = decrement_all ts (decrement t m)

-- `_latest_info`, `_subscription_count` and `_splat_count`.
pub record Known : Type 0 where
  pub latest_info : List (ℕ × NodeInfo)
  pub subscription_count : Counts
  pub splat_count : Counts

abbrev pub splat_topics : List SplatInfo → List String
splat_topics = map (λ s. s.topic)

unfoldable pub tally : NodeInfo → Known → Known
unfolding increment_all
tally info k = record k {
  subscription_count = increment_all info.in_topics k.subscription_count;
  splat_count = increment_all (splat_topics info.splats) k.splat_count;
}

unfoldable pub untally : NodeInfo → Known → Known
unfolding decrement_all
untally info k = record k {
  subscription_count = decrement_all info.in_topics k.subscription_count;
  splat_count = decrement_all (splat_topics info.splats) k.splat_count;
}

unfoldable pub untally_old : Option NodeInfo → Known → Known
unfolding untally
untally_old none k = k
untally_old (some old) k = untally old k

-- The callback of the node's mailbox, from where the message was unbound.
unfoldable pub receive_info : ℕ → NodeInfo → Known → Known
unfolding untally_old tally lookup put ℕ_discrete
receive_info own info k =
    if info.id == own
    then k
    else tally info (record old { latest_info = put ℕ_discrete info.id info old.latest_info })
  where
    old : Known
    old = untally_old (lookup ℕ_discrete info.id k.latest_info) k

-- What becomes of the info of a node that is gone.
abbrev pub dead : NodeInfo → NodeInfo
dead info = record info { alive = false; out_topics = []; in_topics = []; splats = [] }

-- One round of the inner loop of node_impl::server_disconnection.
unfoldable pub bury : ℕ → Known → Known
unfolding untally lookup put ℕ_discrete
bury id k = elim (lookup ℕ_discrete id k.latest_info) [
  | none ↦ k
  | some info ↦ record (untally info k) {
    latest_info = put ℕ_discrete id (dead info) k.latest_info;
  }
]

unfoldable pub bury_all : List ℕ → Known → Known
unfolding bury
bury_all [] k = k
bury_all (id ∷ ids) k = bury_all ids (bury id k)

-- publisher_impl::subscriber_count, of a publisher that is no husk.
unfoldable pub subscriber_count : String → Known → ℕ
unfolding get
subscriber_count t k = get t k.subscription_count

-- `_active_subscribers`, `_active_publishers` and `_local_subscription_count`. A subscriber and a
-- publisher are named by their addresses.
pub record Registry : Type 0 where
  pub active_subscribers : List ℕ
  pub active_publishers : List ℕ
  pub local_subscription_count : Counts

-- The loops that erase every occurrence of a pointer.
unfoldable pub erase_all : ℕ → List ℕ → List ℕ
erase_all a [] = []
erase_all a (x ∷ xs) = if x == a then erase_all a xs else x ∷ erase_all a xs

-- One decrement for each pointer that is erased.
unfoldable pub decrement_erased : ℕ → String → List ℕ → Counts → Counts
unfolding decrement
decrement_erased a t [] m = m
decrement_erased a t (x ∷ xs) m = decrement_erased a t xs (if x == a then decrement t m else m)

-- The topic of a subscriber or publisher never changes.
module _ (topic_of : ℕ → String) where
  unfoldable pub unregister_subscriber : ℕ → Registry → Registry
  unfolding erase_all decrement_erased
  unregister_subscriber a r = record r {
    active_subscribers = erase_all a r.active_subscribers;
    local_subscription_count =
        decrement_erased a (topic_of a) r.active_subscribers r.local_subscription_count;
  }

  -- Less the call of `send_info` at the end.
  unfoldable pub register_subscriber : ℕ → Registry → Registry
  unfolding unregister_subscriber increment
  register_subscriber a r = record s {
    active_subscribers = s.active_subscribers ++ a ∷ [];
    local_subscription_count = increment (topic_of a) s.local_subscription_count;
  }
    where
      s : Registry
      s = unregister_subscriber a r

unfoldable pub unregister_publisher : ℕ → Registry → Registry
unfolding erase_all
unregister_publisher a r = record r { active_publishers = erase_all a r.active_publishers }

-- Less the call of `send_info` at the end.
unfoldable pub register_publisher : ℕ → Registry → Registry
unfolding unregister_publisher
register_publisher a r = record s { active_publishers = s.active_publishers ++ a ∷ [] }
  where
    s : Registry
    s = unregister_publisher a r

-- network_interfaces::interfaces, whose walk over the system's list is commented out.
abbrev pub interfaces : List NetworkInterface
interfaces = []

-- The port of the gateway goes to every host, if the server has one.
unfoldable pub with_port : Option ℕ → List NetworkInterface → List NetworkInterface
with_port none hosts = hosts
with_port (some p) hosts = map (λ (h : NetworkInterface). record h { port = some p }) hosts

-- node_impl::info. `subscribed` and `published` give the topics of the node's own objects, and `port`
-- that of its server.
unfoldable pub info : (ℕ → String) → (ℕ → String) → ℕ → String → Option ℕ → Registry → NodeInfo
unfolding with_port
info subscribed published id name port r = record {
  name = name;
  alive = true;
  id = id;
  hosts = with_port port interfaces;
  in_topics = map subscribed r.active_subscribers;
  splats = [];
  out_topics = map published r.active_publishers;
}

-- The infos that node_impl::send_info sends of the other nodes.
unfoldable pub passed_on : Bool → List (ℕ × NodeInfo) → List NodeInfo
passed_on include_dead [] = []
passed_on include_dead ((id, peer) ∷ infos) =
    if not include_dead && not peer.alive
    then passed_on include_dead infos
    else peer ∷ passed_on include_dead infos

-- The infos that it sends, its own first.
unfoldable pub send_info : Bool → NodeInfo → Known → List NodeInfo
unfolding passed_on
send_info include_dead own k = own ∷ passed_on include_dead k.latest_info
