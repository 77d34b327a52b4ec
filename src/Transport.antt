-- ===== src/Transport.antt =====
-- libdaylite/src/tcp_transport.cpp and .hpp, with the parts of tcp_socket.cpp that it stands on:
-- whether the socket is open. Following the pointer to a socket that was deleted is `none`. What the
-- system answers is an argument. A socket that is lent belongs to a tcp_server, which closes and deletes it.
pub mod Life
mod Tests
use daylite.Prelude.{ℕ, Bool, true, false, ◌||◌, Option, none, some, ltb, if◌then◌else◌}
use daylite.Outcome.{Result, ok, fail, VoidResult, done, success}

-- `allocated`: the socket object is there. `is_open`: its descriptor is not negative. `channels`: the
-- pointers to the channels are not null; they are set and cleared together.
pub record Transport : Type 0 where
  pub allocated : Bool
  pub is_open : Bool
  pub channels : Bool
  pub owns : Bool

-- tcp_transport(address)
abbrev pub owning : Transport
owning = record { allocated = true; is_open = false; channels = false; owns = true }

-- tcp_transport(socket, owns), for a socket that the server accepted
abbrev pub lent : Transport
lent = record { allocated = true; is_open = true; channels = false; owns = false }

-- `opened` and `connected` are what the socket's `open` and `connect` return.
unfoldable pub open_socket : VoidResult → VoidResult → Transport → VoidResult × Transport
open_socket (fail m c) connected t = (fail m c, record t { is_open = false })
open_socket (ok a m c) (fail n e) t = (fail n e, record t { is_open = false })
open_socket (ok a m c) (ok b n e) t = (done, record t { is_open = true; channels = true })

-- tcp_transport::open
unfoldable pub open_transport :
    VoidResult → VoidResult → Transport → Option (VoidResult × Transport)
unfolding open_socket
open_transport opened connected t =
    if t.allocated
    then some
        (if t.is_open then (done, record t { channels = true }) else open_socket opened connected t)
    else none

-- tcp_transport::close
unfoldable pub close : Transport → Option (VoidResult × Transport)
close t =
    if t.allocated
    then some (
      done,
      record t { channels = false; is_open = false; allocated = if t.owns then false else true },
    )
    else none

-- tcp_transport::input and tcp_transport::output: whether there is a channel.
unfoldable pub available : Transport → Option Bool
available t = if t.channels then (if t.allocated then some t.is_open else none) else some false

-- tcp_transport::update. `peek` is what `recv` returns.
unfoldable pub update : Result ℕ → Transport → Option (VoidResult × Transport)
unfolding close
update peek t = if t.allocated then look peek else none
  where
    look : Result ℕ → Option (VoidResult × Transport)
    look (fail m c) = some (done, t)
    look (ok n m c) = if ltb 0 n then some (done, t) else close t

-- What the server does to a socket that it lent, in tcp_server::close and spin_update of
-- libdaylite/src/tcp_server.cpp: it closes it, and deletes it. The transport keeps its pointers.
unfoldable pub owner_close : Transport → Transport
owner_close t = record t { is_open = false }

unfoldable pub owner_delete : Transport → Transport
owner_delete t = record t { allocated = false }
