-- ===== src/Transport/Tests.antt =====
-- Transports at concrete inputs.
use daylite.Prelude.{◌≡◌, refl, true, false, none, some, List, [], ◌∷◌, ◌&&◌, if◌then◌else◌}
use daylite.Outcome.{ok, fail, done}
use daylite.Transport.{
  Transport, owning, lent, open_socket, open_transport, close, available, update, owner_delete,
}
use daylite.Transport.Life.{
  Use, opens, closes, asks, updates, server_closes, use_once, use_all, IsLent, use_all-owner_delete,
}

-- The peer goes, and the node goes on calling.
abbrev uses : List Use
uses = opens done done ∷ asks ∷ updates (ok 0 "" 0) ∷ updates (fail "busy" 11) ∷ asks ∷ closes ∷ []

-- The node works with the socket until the server closes it.
abbrev served : List Use
served = opens done done ∷ asks ∷ updates (ok 1 "" 0) ∷ server_closes ∷ asks ∷ []

use_all-owner_delete_example :
    (t' : Transport) × (use_all lent served ≡ some t')
    × IsLent t'
    × (available t' ≡ some (t'.channels && t'.is_open))
    × (close (owner_delete t') ≡ none)
    × (open_transport done done (owner_delete t') ≡ none)
    × (update (ok 0 "" 0) (owner_delete t') ≡ none)
    × (available (owner_delete t') ≡ (if t'.channels then none else some false))
use_all-owner_delete_example =
    use_all-owner_delete lent served done done (ok 0 "" 0) (record { there = refl; other = refl })

abbrev joined : Transport
joined = record owning { is_open = true; channels = true }

open_transport-owning : open_transport done done owning ≡ some (done, joined)
unfolding open_transport open_socket
open_transport-owning = refl

use_all-owning : use_all owning uses ≡ none
unfolding use_all use_once open_transport open_socket available update close
use_all-owning = refl
