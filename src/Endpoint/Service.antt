-- ===== src/Endpoint/Service.antt =====
-- libdaylite/src/service_impl.cpp and .hpp: a publisher and a subscriber of the two topics of a service.
use Prim.Native.String.{◌++◌ as join}
use daylite.Prelude.{ℕ, ◌≡◌, refl, Option, none, some}
use daylite.Topic.{Topic}
use daylite.Endpoint.{Home, open_publisher, open_subscriber}

-- `_callback`, which is a `std::function`: an empty one is `none`.
pub record Service (Doc : Type 0) : Type 0 where
  pub topic : Topic
  pub callback : Option (Doc → Doc)

abbrev pub out_topic : Topic → Topic
out_topic t = join t ":out"

abbrev pub in_topic : Topic → Topic
in_topic t = join t ":in"

-- The constructor. Its argument `callback` initialises no member, so that `_callback` is empty.
unfoldable pub service : {Doc : Type 0} → Topic → (Doc → Doc) → Service Doc
service t callback = record { topic = t; callback = none }

-- What the constructor does to the node; `topic_of` gives the topics of subscribers, `out` and `inward`
-- are the addresses of the publisher and the subscriber, the others those of their mailboxes.
unfoldable pub open_service : (ℕ → Topic) → Topic → ℕ → ℕ → ℕ → ℕ → Home → Home
unfolding open_publisher open_subscriber
open_service topic_of t out out_box inward in_box h =
    open_subscriber topic_of inward in_box (open_publisher (out_topic t) out out_box h)

-- The function that the subscriber calls: what it publishes, or the exception of an empty function.
unfoldable pub serve : {Doc : Type 0} → Service Doc → Doc → Option Doc
serve s msg = elim s.callback [ none ↦ none | some f ↦ some (f msg) ]

-- Whatever function a service is made with, it answers no message.
pub serve-service :
    {Doc : Type 0} (t : Topic) (f : Doc → Doc) (msg : Doc) → serve (service t f) msg ≡ none
unfolding serve service
serve-service t f msg = refl
