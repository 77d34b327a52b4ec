-- ===== src/Peers/Tests.antt =====
-- A node's links at concrete inputs.
use daylite.Node.{bury_all}
use daylite.Topic.{any}
use daylite.Prelude.Assoc.{lookup}
use daylite.Prelude.{
  List, [], ◌∷◌, ℕ, if◌then◌else◌, none, ℕ_discrete, ◌≡◌, ◌≢◌, refl, some, String, [], ◌∷◌, arith,
}
use daylite.Outcome.{done, fail}
use daylite.Topic.{any}
use daylite.Mail.{boxes}
use daylite.Node.Tally.{nothing_known, nothing-IsTallied}
use daylite.Packet.Sample.{SampleDoc}
use daylite.Peers.{Peer, Links, attach, server_connection, server_disconnection}
use daylite.Peers.Linked.{IsLinked, attach-IsLinked}
use daylite.Peers.History.{LinkEvent, joins, accepts, loses}
use daylite.Peers.Departure.{leaves, ids_behind, staying, server_disconnection-IsLinked}

abbrev gateway : Peer
gateway = record { box = 64; link = 72; socket = 80; associated_ids = 2 ∷ [] }

abbrev client : Peer
client = record { box = 96; link = 104; socket = 112; associated_ids = 3 ∷ [] }

abbrev alone : Links SampleDoc
alone = record { remotes = []; buffers = []; mailman = []; known = nothing_known }

alone-IsLinked : IsLinked alone
alone-IsLinked = record { remotes_in = tt; tallied = nothing-IsTallied }

abbrev both : Links SampleDoc
both = attach client (attach gateway alone)

both-IsLinked : IsLinked both
unfolding attach
both-IsLinked =
    attach-IsLinked client (attach gateway alone) (λ e. omega arith, tt)
      (attach-IsLinked gateway alone tt alone-IsLinked)

refused : server_connection (fail "refused" 111) client alone ≡ alone
unfolding server_connection
refused = refl

server_disconnection-IsLinked_example :
    (n' : Links SampleDoc) × (server_disconnection 80 both ≡ some n')
    × (n'.remotes ≡ staying 80 both.remotes)
    × IsLinked n'
    × ((x : ℕ)
        → lookup ℕ_discrete x (boxes n'.mailman any) ≡ (
            if leaves 80 x both.remotes
            then none
            else lookup ℕ_discrete x (boxes both.mailman any)))
    × (n'.known ≡ bury_all (ids_behind 80 both.remotes) both.known)
    × ((u : String) → u ≢ any → boxes n'.mailman u ≡ boxes both.mailman u)
server_disconnection-IsLinked_example = server_disconnection-IsLinked 80 both both-IsLinked

-- A client comes and the gateway goes.
abbrev events : List LinkEvent
events = joins done gateway ∷ accepts done client ∷ loses 80 ∷ []
