-- ===== src/Transport/Life.antt =====
-- Which calls of a transport follow a pointer that dangles.
use daylite.Prelude.{
  ℕ, zero, suc, String, ◌≡◌, refl, Bool, true, false, Option, none, some, List, [], ◌∷◌, arith,
  if◌then◌else◌, ◌&&◌,
}
use daylite.Outcome.{Result, ok, fail, VoidResult, done}
use daylite.Transport.{
  Transport, open_socket, open_transport, close, available, update, owner_close, owner_delete,
}

-- The calls of the node and of the thread, and that the server closes the socket that it lent.
pub data Use : Type 0 where
  opens : VoidResult → VoidResult → Use
  closes : Use
  asks : Use
  updates : Result ℕ → Use
  server_closes : Use

abbrev next_state : Option (VoidResult × Transport) → Option Transport
next_state none = none
next_state (some (r, t)) = some t

abbrev if_known : Transport → Option Bool → Option Transport
if_known t none = none
if_known t (some b) = some t

unfoldable pub use_once : Transport → Use → Option Transport
use_once t (opens o c) = next_state (open_transport o c t)
use_once t closes = next_state (close t)
use_once t asks = if_known t (available t)
use_once t (updates peek) = next_state (update peek t)
use_once t server_closes = some (owner_close t)

abbrev and_then : Option Transport → (Transport → Option Transport) → Option Transport
and_then none f = none
and_then (some t) f = f t

unfoldable pub use_all : Transport → List Use → Option Transport
use_all t [] = some t
use_all t (u ∷ us) = and_then (use_once t u) (λ t'. use_all t' us)

-- The socket of another owner, who has not deleted it.
pub record IsLent (t : Transport) : Type 0 where
  pub there : t.allocated ≡ true
  pub other : t.owns ≡ false

-- What a call may do to a transport that is lent.
abbrev Stays : Transport → Use → Type 0
Stays t u = (t' : Transport) × (use_once t u ≡ some t') × IsLent t'

record-IsLent :
    (o c : Bool) → IsLent (record { allocated = true; is_open = o; channels = c; owns = false })
record-IsLent o c = record { there = refl; other = refl }

use_once-record :
    (o c : Bool) (u : Use)
    → Stays (record { allocated = true; is_open = o; channels = c; owns = false }) u
unfolding use_once open_transport open_socket close available update owner_close
use_once-record true c (opens x y) = (_, refl, record-IsLent true true)
use_once-record false c (opens (fail m n) y) = (_, refl, record-IsLent false c)
use_once-record false c (opens (ok a m n) (fail k l)) = (_, refl, record-IsLent false c)
use_once-record false c (opens (ok a m n) (ok b k l)) = (_, refl, record-IsLent true true)
use_once-record o c closes = (_, refl, record-IsLent false false)
use_once-record o true asks = (_, refl, record-IsLent o true)
use_once-record o false asks = (_, refl, record-IsLent o false)
use_once-record o c (updates (fail m n)) = (_, refl, record-IsLent o c)
use_once-record o c (updates (ok zero m n)) = (_, refl, record-IsLent false false)
use_once-record o c (updates (ok (suc k) m n)) = (
  record { allocated = true; is_open = o; channels = c; owns = false },
  ground arith,
  record-IsLent o c,
)
use_once-record o c server_closes = (_, refl, record-IsLent false c)

use_once-IsLent :
    (t : Transport) (u : Use) → IsLent t → (t' : Transport) × (use_once t u ≡ some t') × IsLent t'
use_once-IsLent t u v = go t.allocated t.owns v.there v.other
  where
    go :
        (a w : Bool)
        → a ≡ true
        → w ≡ false
        → Stays (record { allocated = a; is_open = t.is_open; channels = t.channels; owns = w }) u
    go true false e f = use_once-record t.is_open t.channels u
    go true true e f = cc
    go false w e f = cc

use_all-IsLent :
    (t : Transport) (us : List Use)
    → IsLent t
    → (t' : Transport) × (use_all t us ≡ some t') × IsLent t'
unfolding use_all
use_all-IsLent t [] v = (t, refl, v)
use_all-IsLent t (u ∷ us) v =
    let (s, e, w) = use_once-IsLent t u v in
    let (r, f, x) = use_all-IsLent s us w in (r, rw (e, use_all, f), x)

-- As long as the server that lent the socket has not deleted it, no call of the transport follows a
-- dangling pointer, though the server may close the socket at any time, and whatever the system
-- answers; an input or output is offered only where the socket is open. Once the server has deleted it,
-- the transport's close, which its destructor calls, follows the dangling pointer, and so do open and
-- update; and input and output do if the transport has its channels.
pub use_all-owner_delete :
    (t : Transport) (us : List Use) (opened connected : VoidResult) (peek : Result ℕ)
    → IsLent t
    → (t' : Transport) × (use_all t us ≡ some t')
      × IsLent t'
      × (available t' ≡ some (t'.channels && t'.is_open))
      × (close (owner_delete t') ≡ none)
      × (open_transport opened connected (owner_delete t') ≡ none)
      × (update peek (owner_delete t') ≡ none)
      × (available (owner_delete t') ≡ (if t'.channels then none else some false))
unfolding available close open_transport update owner_delete
use_all-owner_delete t us opened connected peek v =
    let (t', e, w) = use_all-IsLent t us v in
    (t', e, w, ground (arith, w.there), refl, refl, refl, refl)

-- A transport that owns its socket deletes it when the peer has gone, and keeps the pointer: after an
-- `update` that sees the end of the stream, every further `update`, `close` and `open` follows it.
pub update-owning :
    (t : Transport) (message : String) (number : ℕ) (peek : Result ℕ)
    (opened connected : VoidResult)
    → t.allocated ≡ true
    → t.owns ≡ true
    → (t' : Transport) × (update (ok 0 message number) t ≡ some (done, t'))
      × (update peek t' ≡ none)
      × (close t' ≡ none)
      × (open_transport opened connected t' ≡ none)
unfolding update close open_transport
update-owning t message number peek opened connected a o = (
  record t { channels = false; is_open = false; allocated = false },
  ground (arith, a, o),
  refl,
  refl,
  refl,
)
