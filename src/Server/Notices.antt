-- ===== src/Server/Notices.antt =====
-- What a listener of tcp_server hears, against the clients that the server has.
use daylite.Prelude.{
  ℕ, ◌+◌, ◌≡◌, refl, ap, ◌∙◌, List, [], ◌∷◌, ◌++◌, ◌==◌, ◌&&◌, if◌then◌else◌, count, count-append,
  ℕ_discrete, arith,
}
use daylite.Outcome.{Result, ok, fail}
use daylite.Server.{
  Server, Probe, Notice, connected, disconnected, tell, sweep, accept_all, spin_update,
  erase_listener, add_tcp_server_listener, remove_tcp_server_listener,
}

unfoldable pub spin_all : List ((ℕ → Probe) × List (Result ℕ)) → Server → List Notice × Server
spin_all [] s = ([], s)
spin_all ((probe, rs) ∷ rounds) s =
    let p = spin_update probe rs s in let rest = spin_all rounds p.1 in (p.0 ++ rest.0, rest.1)

module _ (l c : ℕ) where
  -- How often the listener was told that the client is there, and that it is gone.
  unfoldable pub arrivals : List Notice → ℕ
  arrivals [] = 0
  arrivals (connected x y ∷ ns) = (if x == l && y == c then 1 else 0) + arrivals ns
  arrivals (disconnected x y ∷ ns) = arrivals ns

  unfoldable pub departures : List Notice → ℕ
  departures [] = 0
  departures (connected x y ∷ ns) = departures ns
  departures (disconnected x y ∷ ns) = (if x == l && y == c then 1 else 0) + departures ns

  arrivals-append : (ns ms : List Notice) → arrivals (ns ++ ms) ≡ arrivals ns + arrivals ms
  unfolding arrivals
  arrivals-append [] ms = omega arith
  arrivals-append (connected x y ∷ ns) ms = omega (arith, arrivals-append ns ms)
  arrivals-append (disconnected x y ∷ ns) ms = arrivals-append ns ms

  departures-append : (ns ms : List Notice) → departures (ns ++ ms) ≡ departures ns + departures ms
  unfolding departures
  departures-append [] ms = omega arith
  departures-append (connected x y ∷ ns) ms = departures-append ns ms
  departures-append (disconnected x y ∷ ns) ms = omega (arith, departures-append ns ms)

  tell-connected :
      (ls : List ℕ) (y : ℕ)
      → (arrivals (tell connected ls y) ≡ (if y == c then count ℕ_discrete l ls else 0))
        × (departures (tell connected ls y) ≡ 0)
  unfolding tell arrivals departures count
  tell-connected [] y = ground arith
  tell-connected (x ∷ ls) y = ground (arith, tell-connected ls y)

  tell-disconnected :
      (ls : List ℕ) (y : ℕ)
      → (departures (tell disconnected ls y) ≡ (if y == c then count ℕ_discrete l ls else 0))
        × (arrivals (tell disconnected ls y) ≡ 0)
  unfolding tell arrivals departures count
  tell-disconnected [] y = ground arith
  tell-disconnected (x ∷ ls) y = ground (arith, tell-disconnected ls y)

  count_single : (y : ℕ) → count ℕ_discrete c (y ∷ []) ≡ (if y == c then 1 else 0)
  unfolding count
  count_single y = ground arith

  sweep-count :
      (probe : ℕ → Probe) (ls cs : List ℕ)
      → count ℕ_discrete l ls ≡ 1
      → (departures (sweep probe ls cs).0 + count ℕ_discrete c (sweep probe ls cs).1
          ≡ count ℕ_discrete c cs)
        × (arrivals (sweep probe ls cs).0 ≡ 0)
  unfolding sweep count
  sweep-count probe ls [] h = (unfold departures in omega arith, unfold arrivals in refl)
  sweep-count probe ls (y ∷ cs) h = ground (
    arith,
    sweep-count probe ls cs h,
    tell-disconnected ls y,
    departures-append (tell disconnected ls y) (sweep probe ls cs).0,
    arrivals-append (tell disconnected ls y) (sweep probe ls cs).0,
  )

  accept_all-count :
      (rs : List (Result ℕ)) (ls cs : List ℕ)
      → count ℕ_discrete l ls ≡ 1
      → (count ℕ_discrete c (accept_all rs ls cs).1
          ≡ arrivals (accept_all rs ls cs).0 + count ℕ_discrete c cs)
        × (departures (accept_all rs ls cs).0 ≡ 0)
  unfolding accept_all
  accept_all-count [] ls cs h = (unfold arrivals in omega arith, unfold departures in refl)
  accept_all-count (fail m n ∷ rs) ls cs h =
      (unfold arrivals in omega arith, unfold departures in refl)
  accept_all-count (ok y m n ∷ rs) ls cs h = ground (
    arith,
    accept_all-count rs ls (cs ++ y ∷ []) h,
    tell-connected ls y,
    count-append ℕ_discrete c cs (y ∷ []),
    count_single y,
    departures-append (tell connected ls y) (accept_all rs ls (cs ++ y ∷ [])).0,
    arrivals-append (tell connected ls y) (accept_all rs ls (cs ++ y ∷ [])).0,
  )

  spin_update-balance :
      (probe : ℕ → Probe) (rs : List (Result ℕ)) (s : Server)
      → count ℕ_discrete l s.listeners ≡ 1
      → let p = spin_update probe rs s in
        (arrivals p.0 + count ℕ_discrete c s.clients
          ≡ departures p.0 + count ℕ_discrete c p.1.clients)
        × (p.1.listeners ≡ s.listeners)
  unfolding spin_update
  spin_update-balance probe rs s h = (
    ground (
      arith,
      sweep-count probe s.listeners s.clients h,
      accept_all-count rs s.listeners (sweep probe s.listeners s.clients).1 h,
      arrivals-append (sweep probe s.listeners s.clients).0
          (accept_all rs s.listeners (sweep probe s.listeners s.clients).1).0,
      departures-append (sweep probe s.listeners s.clients).0
          (accept_all rs s.listeners (sweep probe s.listeners s.clients).1).0,
    ),
    refl,
  )

  -- Over any number of passes, a listener that is registered once is told of a client exactly as the
  -- server's list changes: the connections that it is told and the entries that the client had are the
  -- disconnections that it is told and the entries that the client has then.
  pub spin_all-balance :
      (rounds : List ((ℕ → Probe) × List (Result ℕ))) (s : Server)
      → count ℕ_discrete l s.listeners ≡ 1
      → arrivals (spin_all rounds s).0 + count ℕ_discrete c s.clients
        ≡ departures (spin_all rounds s).0 + count ℕ_discrete c (spin_all rounds s).1.clients
  unfolding spin_all
  spin_all-balance [] s h = unfold arrivals departures in refl
  spin_all-balance ((probe, rs) ∷ rounds) s h =
      let step = spin_update-balance probe rs s h in
      let rest =
        spin_all-balance rounds (spin_update probe rs s).1 (ap (count ℕ_discrete l) step.1 ∙ h) in
      omega (
        arith,
        step.0,
        rest,
        arrivals-append (spin_update probe rs s).0 (spin_all rounds (spin_update probe rs s).1).0,
        departures-append (spin_update probe rs s).0 (spin_all rounds (spin_update probe rs s).1).0,
      )

count-erase_listener :
    (l k : ℕ) (xs : List ℕ)
    → count ℕ_discrete k (erase_listener l xs) ≡ (if l == k then 0 else count ℕ_discrete k xs)
unfolding erase_listener count
count-erase_listener l k [] = ground arith
count-erase_listener l k (x ∷ xs) = ground (arith, count-erase_listener l k xs)

-- A listener that is added is there once more and one that is removed is not there at all; the others
-- are there as often as before.
pub listeners_lem :
    (l k : ℕ) (s : Server)
    → (count ℕ_discrete k (add_tcp_server_listener l s).1.listeners
        ≡ count ℕ_discrete k s.listeners + (if l == k then 1 else 0))
      × (count ℕ_discrete k (remove_tcp_server_listener l s).1.listeners
          ≡ (if l == k then 0 else count ℕ_discrete k s.listeners))
unfolding add_tcp_server_listener remove_tcp_server_listener
listeners_lem l k s = (
  ground (arith, count-append ℕ_discrete k s.listeners (l ∷ []), count_single l k l),
  count-erase_listener l k s.listeners,
)
