-- ===== src/Server.antt =====
-- libdaylite/src/tcp_server.cpp and .hpp: the sockets that a node has accepted, and whom it tells. A
-- client and a listener are named by their addresses.
pub mod Notices
mod Tests
use daylite.Prelude.{
  ℕ, Bool, true, false, List, [], ◌∷◌, ◌++◌, ltb, ◌==◌, ◌&&◌, ◌||◌, if◌then◌else◌,
}
use daylite.Outcome.{Result, ok, fail, VoidResult, done}

pub record Server : Type 0 where
  pub clients : List ℕ
  pub listeners : List ℕ
  pub is_open : Bool

-- A call of a listener.
pub data Notice : Type 0 where
  connected disconnected : ℕ → ℕ → Notice

-- What a pass meets at a client: `is_open`, and what `recv` returns.
pub record Probe : Type 0 where
  pub is_open : Bool
  pub peek : Result ℕ

-- tcp_server::open, where the three arguments are what the socket's `open`, `bind` and `listen` return.
unfoldable pub open_server : VoidResult → VoidResult → VoidResult → Server → VoidResult × Server
open_server (fail m c) bound listening s = (fail m c, record s { is_open = false })
open_server (ok a m c) (fail n d) listening s = (fail n d, record s { is_open = false })
open_server (ok a m c) (ok b n d) (fail o e) s = (fail o e, record s { is_open = false })
open_server (ok a m c) (ok b n d) (ok f o e) s = (done, record s { is_open = true })

-- tcp_server::close. The clients are closed and deleted, and stay in the list: the first part says
-- which.
unfoldable pub close : Server → List ℕ × Server
close s = (s.clients, record s { is_open = false })

unfoldable pub add_tcp_server_listener : ℕ → Server → VoidResult × Server
add_tcp_server_listener l s = (done, record s { listeners = s.listeners ++ l ∷ [] })

unfoldable pub erase_listener : ℕ → List ℕ → List ℕ
erase_listener l [] = []
erase_listener l (x ∷ xs) = if x == l then erase_listener l xs else x ∷ erase_listener l xs

unfoldable pub remove_tcp_server_listener : ℕ → Server → VoidResult × Server
unfolding erase_listener
remove_tcp_server_listener l s = (done, record s { listeners = erase_listener l s.listeners })

-- !ret || ret.unwrap() > 0
abbrev pub silent_or_more : Result ℕ → Bool
silent_or_more (fail m c) = true
silent_or_more (ok n m c) = ltb 0 n

unfoldable pub stays : Probe → Bool
stays p = p.is_open && silent_or_more p.peek

-- The call of each listener about one client.
unfoldable pub tell : (ℕ → ℕ → Notice) → List ℕ → ℕ → List Notice
tell f [] c = []
tell f (l ∷ ls) c = f l c ∷ tell f ls c

-- The first loop of spin_update: the calls that it makes, and the clients that stay.
unfoldable pub sweep : (ℕ → Probe) → List ℕ → List ℕ → List Notice × List ℕ
unfolding stays tell
sweep probe ls [] = ([], [])
sweep probe ls (c ∷ cs) =
    let rest = sweep probe ls cs in
    if stays (probe c) then (rest.0, c ∷ rest.1) else (tell disconnected ls c ++ rest.0, rest.1)

-- The second loop, over what `accept` returns: it ends at the first failure. A socket with no more
-- connections fails.
unfoldable pub accept_all : List (Result ℕ) → List ℕ → List ℕ → List Notice × List ℕ
unfolding tell
accept_all [] ls cs = ([], cs)
accept_all (fail m n ∷ rs) ls cs = ([], cs)
accept_all (ok c m n ∷ rs) ls cs =
    let rest = accept_all rs ls (cs ++ c ∷ []) in (tell connected ls c ++ rest.0, rest.1)

-- tcp_server::spin_update
unfoldable pub spin_update : (ℕ → Probe) → List (Result ℕ) → Server → List Notice × Server
unfolding sweep accept_all
spin_update probe accepts s =
    let left = sweep probe s.listeners s.clients in
    let all = accept_all accepts s.listeners left.1 in
    (left.0 ++ all.0, record s { clients = all.1 })
