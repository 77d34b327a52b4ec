-- ===== src/Endpoint/Journal.antt =====
-- A message on its way from a publisher of one node to the subscribers of another.
use daylite.Prelude.{
  ℕ, ◌≡◌, ◌≢◌, refl, ap, sym, ◌∙◌, Bool, false, Option, some, [], ◌∷◌, ◌++◌, arith,
}
use daylite.Packet.{NetworkTime, Meta, Packet, Bson, build, make, parse}
use daylite.Packet.RoundTrip.{parse-build}
use daylite.Node.{Counts}
use daylite.Remote.{Mode, on_path, found, stamped, send}
use daylite.Remote.Sending.{send-stamped}
use daylite.Endpoint.{Publisher, Subscriber, prepared, received}

-- The meta of a message that node `own` published first and sent itself.
abbrev pub meta_sent : Publisher → ℕ → NetworkTime → Meta
meta_sent p own time = record {
  topic = p.topic;
  stamp = time;
  origin_id = own;
  id = own;
  path = own ∷ [];
  droppable = p.firehose;
}

module _ (b : Bson) (blank : Meta) (own : ℕ) (p : Publisher) (time : NetworkTime)
    (msg : Option b.Doc) where
  open b use {Doc}

  -- What the publisher hands to its mailbox.
  unfoldable pub published : Packet Doc
  unfolding prepared make
  published = prepared b own p.firehose (make b blank p.topic time msg false)

  -- What is built and goes out.
  outgoing : Packet Doc
  unfolding published
  outgoing = record published {
    meta = record published.meta { path = published.meta.path ++ own ∷ []; id = own };
  }

  outgoing-meta : blank.path ≡ [] → outgoing.meta ≡ meta_sent p own time
  unfolding outgoing
  outgoing-meta e = ap (λ l. record (meta_sent p own time) { path = l ++ own ∷ [] }) e

  outgoing-msg : outgoing.msg ≡ msg
  unfolding outgoing
  outgoing-msg = refl

  stamped-published : stamped b own published ≡ build b outgoing
  unfolding stamped outgoing
  stamped-published = refl

  not_found :
      (peer : ℕ) (r : Packet Doc)
      → own ≢ peer
      → r.meta ≡ meta_sent p own time
      → found peer r ≡ false
  unfolding found on_path
  not_found peer r ne e = ground (arith, ap (λ (m : Meta). m.path) e, ap (λ (m : Meta). m.id) e)

  -- Where the path of a new meta is empty, a message that a node publishes, sends on a link and that is
  -- parsed at the other end arrives with its topic, its time, its sender and the mark of a droppable
  -- packet; every other node takes it in, and hands a subscriber the message as it was published.
  pub message_arrives :
      (mode : Mode) (counts : Counts) (q : Packet Doc) (d : Doc) (blank' : Meta) (stale : Bool)
      → blank.path ≡ []
      → send b own mode counts published ≡ some q
      → q.packed ≡ some d
      → (r : Packet Doc) × (parse b blank' stale d ≡ some r)
        × (r.meta ≡ meta_sent p own time)
        × ((peer : ℕ) → own ≢ peer → found peer r ≡ false)
        × ((s : Subscriber) → s.send_packed ≡ false → received b s r ≡ msg)
  unfolding received
  message_arrives mode counts q d blank' stale e out packed = (
    record { meta = outgoing.meta; msg = outgoing.msg; packed = some d; local_only = stale },
    parse-build b blank' stale outgoing d (
        ap (λ (t : Packet Doc). t.packed)
          (sym stamped-published ∙ sym (send-stamped b own mode counts published q out))
        ∙ packed),
    outgoing-meta e,
    λ peer ne. not_found peer _ ne (outgoing-meta e),
    λ s raw. rw (raw, received) outgoing-msg,
  )
