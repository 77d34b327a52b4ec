-- ===== src/Gateway/Servers.antt =====
-- The servers of a node over any sequence of starts and stops.
use daylite.Prelude.{
  ℕ, suc, ◌+◌, ◌≡◌, refl, true, false, Option, none, some, List, [], ◌∷◌, length, arith,
}
use daylite.Outcome.{VoidResult, ok, fail}
use daylite.Server.{
  Server, open_server, close, add_tcp_server_listener, remove_tcp_server_listener, erase_listener,
}
use daylite.Gateway.{Gateway, Opening, start_gateway_service, stop_gateway_service}

pub data Call : Type 0 where
  starts : Opening → Call
  stops : Call

unfoldable pub call : ℕ → Call → Gateway → Gateway
unfolding start_gateway_service stop_gateway_service
call self (starts o) g = (start_gateway_service self o g).1
call self stops g = (stop_gateway_service self g).1

unfoldable pub run_calls : ℕ → List Call → Gateway → Gateway
unfolding call
run_calls self [] g = g
run_calls self (c ∷ cs) g = run_calls self cs (call self c g)

abbrev pub started : List Call → ℕ
started [] = 0
started (starts o ∷ cs) = suc (started cs)
started (stops ∷ cs) = started cs

-- A server that is closed, and that no one listens to.
abbrev pub IsIdle : Server → Type 0
IsIdle s = (s.is_open ≡ false) × (s.listeners ≡ [])

abbrev pub AreIdle : List Server → Type 0
AreIdle [] = Unit {0}
AreIdle (s ∷ ss) = IsIdle s × AreIdle ss

-- A server that is open, and that the node listens to once.
abbrev pub IsServing : ℕ → Option Server → Type 0
IsServing self none = Unit {0}
IsServing self (some s) = (s.is_open ≡ true) × (s.listeners ≡ self ∷ [])

abbrev held : Option Server → ℕ
held none = 0
held (some s) = 1

-- The servers that were made and still exist, or were deleted.
abbrev pub servers : Gateway → ℕ
servers g = held g.server + length g.lost + length g.deleted

pub record IsKept (self : ℕ) (g : Gateway) : Type 0 where
  pub current : IsServing self g.server
  pub idle : AreIdle g.lost

-- A call keeps the servers in order, and the number of servers goes on by `n`.
abbrev Keeps : ℕ → ℕ → Gateway → Gateway → Type 0
Keeps self n g after = IsKept self after × (servers after ≡ n + servers g)

-- One lemma for each way through a call, on the parts of a gateway.
module _ (self : ℕ) (lost deleted : List Server) (idle : AreIdle lost) where
  abbrev with_server : Option Server → Gateway
  with_server s = record { server = s; lost = lost; deleted = deleted }

  stops-Keeps :
      (server : Option Server)
      → IsServing self server
      → Keeps self 0 (with_server server) (call self stops (with_server server))
  unfolding call stop_gateway_service close remove_tcp_server_listener erase_listener
  stops-Keeps none v = (record { current = tt; idle = idle }, omega arith)
  stops-Keeps (some s) v =
      (record { current = tt; idle = ((refl, ground arith), idle) }, omega arith)

  made-Keeps :
      (server : Option Server) (opened bound listening : VoidResult)
      → let o : Opening = record { opened = opened; bound = bound; listening = listening } in
        Keeps self 1 (with_server server) (call self (starts o) (with_server server))
  unfolding call start_gateway_service close open_server add_tcp_server_listener
  made-Keeps none (fail m c) bound listening =
      (record { current = tt; idle = ((refl, refl), idle) }, omega arith)
  made-Keeps none (ok a m c) (fail n d) listening =
      (record { current = tt; idle = ((refl, refl), idle) }, omega arith)
  made-Keeps none (ok a m c) (ok b n d) (fail k e) =
      (record { current = tt; idle = ((refl, refl), idle) }, omega arith)
  made-Keeps none (ok a m c) (ok b n d) (ok f k e) =
      (record { current = (refl, refl); idle = idle }, omega arith)
  made-Keeps (some s) (fail m c) bound listening =
      (record { current = tt; idle = ((refl, refl), idle) }, omega arith)
  made-Keeps (some s) (ok a m c) (fail n d) listening =
      (record { current = tt; idle = ((refl, refl), idle) }, omega arith)
  made-Keeps (some s) (ok a m c) (ok b n d) (fail k e) =
      (record { current = tt; idle = ((refl, refl), idle) }, omega arith)
  made-Keeps (some s) (ok a m c) (ok b n d) (ok f k e) =
      (record { current = (refl, refl); idle = idle }, omega arith)

-- Over any sequence of starts and stops of its gateway, whatever the system answers, a node has at most
-- one server, which is open and tells the node once; every server that it let go is closed and tells no
-- one; and each start made one server, which is the current one, let go without being deleted, or
-- deleted by a later start.
pub run_calls-IsKept :
    (self : ℕ) (cs : List Call) (g : Gateway)
    → IsKept self g
    → IsKept self (run_calls self cs g) × (servers (run_calls self cs g) ≡ started cs + servers g)
unfolding run_calls
run_calls-IsKept self [] g v = (v, omega arith)
run_calls-IsKept self (starts o ∷ cs) g v =
    let (v', e) = made-Keeps self g.lost g.deleted v.idle g.server o.opened o.bound o.listening in
    let (w, f) = run_calls-IsKept self cs (call self (starts o) g) v' in (w, omega (arith, e, f))
run_calls-IsKept self (stops ∷ cs) g v =
    let (v', e) = stops-Keeps self g.lost g.deleted v.idle g.server v.current in
    let (w, f) = run_calls-IsKept self cs (call self stops g) v' in (w, omega (arith, e, f))
