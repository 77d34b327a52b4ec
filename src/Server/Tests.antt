-- ===== src/Server/Tests.antt =====
-- The server at concrete inputs.
use daylite.Prelude.{ℕ, ◌+◌, ◌≡◌, ◌==◌, refl, true, List, [], ◌∷◌, count, ℕ_discrete, if◌then◌else◌}
use daylite.Outcome.{Result, ok, fail}
use daylite.Server.{
  Server, Probe, connected, disconnected, stays, tell, sweep, accept_all, spin_update,
}
use daylite.Server.Notices.{arrivals, departures, spin_all, spin_all-balance}

abbrev server : Server
server = record { clients = 16 ∷ 32 ∷ []; listeners = 8 ∷ []; is_open = true }

-- Client 16 has gone, the others have nothing to say.
abbrev probe : ℕ → Probe
probe c = record { is_open = true; peek = if c == 16 then ok 0 "" 0 else fail "busy" 11 }

abbrev accepts : List (Result ℕ)
accepts = ok 48 "" 0 ∷ fail "busy" 11 ∷ ok 64 "" 0 ∷ []

spin_update-server :
    spin_update probe accepts server
    ≡ (disconnected 8 16 ∷ connected 8 48 ∷ [], record server { clients = 32 ∷ 48 ∷ [] })
unfolding spin_update sweep accept_all stays tell
spin_update-server = refl

abbrev rounds : List ((ℕ → Probe) × List (Result ℕ))
rounds = (probe, accepts) ∷ (probe, []) ∷ []

spin_all-balance_example :
    arrivals 8 16 (spin_all rounds server).0 + count ℕ_discrete 16 server.clients
    ≡ departures 8 16 (spin_all rounds server).0
      + count ℕ_discrete 16 (spin_all rounds server).1.clients
unfolding count ℕ_discrete
spin_all-balance_example = spin_all-balance 8 16 rounds server refl
