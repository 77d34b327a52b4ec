-- ===== src/Node/Control.antt =====
-- The callback of the node's own mailbox, in the constructor in libdaylite/src/node_impl.cpp.
use daylite.Prelude.{ℕ, ◌≡◌, ◌≢◌, Option, none, some, ℕ_discrete, arith}
use daylite.Prelude.Assoc.{lookup}
use daylite.Packet.{NetworkTime}
use daylite.Clock.{Clock, receive_stamp}
use daylite.Node.{NodeInfo, Known, receive_info}
use daylite.Node.Gossip.{receive_info-latest}

-- The node's part that its mailbox works on.
pub record Control : Type 0 where
  pub clock : Clock
  pub known : Known

-- An exception of `node_info::unbind` is reported, and `info` keeps what its constructor gave it.
abbrev pub info_or : NodeInfo → Option NodeInfo → NodeInfo
info_or blank none = blank
info_or blank (some info) = info

-- The callback of a node `own` at the time `now`, for a packet with that stamp, where `unbound` is what
-- is made of its message.
unfoldable pub control_mail :
    ℕ → NodeInfo → NetworkTime → NetworkTime → Option NodeInfo → Control → Control
unfolding receive_stamp receive_info
control_mail own blank now stamp unbound c = record {
  clock = receive_stamp now stamp c.clock;
  known = receive_info own (info_or blank unbound) c.known;
}

-- A message that cannot be read is not dropped: the info that a constructor leaves is recorded as that
-- of a node, under whatever id it has, unless that is the node's own.
pub control_mail-unreadable :
    (own : ℕ) (blank : NodeInfo) (now stamp : NetworkTime) (c : Control)
    → blank.id ≢ own
    → lookup ℕ_discrete blank.id (control_mail own blank now stamp none c).known.latest_info
      ≡ some blank
unfolding control_mail
control_mail-unreadable own blank now stamp c ne =
    ground (arith, receive_info-latest own blank.id blank c.known ne)
