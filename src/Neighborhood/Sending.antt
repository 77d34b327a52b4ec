-- ===== src/Neighborhood/Sending.antt =====
-- remote_node::send with the splats against remote_node::send without them.
use daylite.Prelude.{◌≡◌, ℕ, true, false, none, some, arith}
use daylite.Packet.{Bson, Packet}
use daylite.Node.{Counts}
use daylite.Remote
use daylite.Remote.{Mode}
use daylite.Splat.{Answers, Memory, Files}
use daylite.Neighborhood.{Splats, Sent, splattable, send}

module _ (b : Bson) (m : Memory b.Doc) (answers : Answers) (own : ℕ) (mode : Mode) (counts : Counts)
    (p : Packet b.Doc) (st : Splats b.Doc) (files : Files) where
  -- A packet that its node did not first send itself as a droppable one goes out as without the splats,
  -- and the splats stay as they are.
  pub send-unsplattable :
      splattable own p ≡ false
      → send b m answers own mode counts p (st, files)
        ≡ some (record {
          packet = Remote.send b own mode counts p;
          announced = false;
          splats = st;
          files = files;
        })
  unfolding send Remote.send
  send-unsplattable e = ground arith

  -- A packet that is splattable never goes out on the link, to no peer.
  pub send-splattable :
      (sent : Sent b.Doc)
      → splattable own p ≡ true
      → send b m answers own mode counts p (st, files) ≡ some sent
      → sent.packet ≡ none
  unfolding send
  send-splattable sent e h = ground arith
