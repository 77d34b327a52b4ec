-- ===== src/Socket/Modes.antt =====
-- The mode of a socket's descriptor, and its address.
use daylite.Prelude.{ℕ, ◌≡◌, refl, ap, ◌∙◌, Bool, true, false, Option, some, String}
use daylite.Outcome.{Result, ok, fail, VoidResult, done, success}
use daylite.Socket.{
  SocketAddress, Socket, Flags, get_std_error, blocking, set_blocking, open_socket, as_bool,
  with_address, connect,
}

-- The system reads and sets the flags.
abbrev pub Works : Flags → Type 0
Works f = (success f.read ≡ true) × (success f.written ≡ true)

abbrev socket_at : ℕ → Option SocketAddress → Bool → Socket
socket_at fd a b = record { fd = some fd; associated_address = a; blocks = b }

set_blocking-Works :
    (f : Flags) (fd : ℕ) (a : Option SocketAddress) (b c : Bool)
    → Works f
    → set_blocking f c (socket_at fd a b) ≡ (done, socket_at fd a c)
unfolding set_blocking
set_blocking-Works f fd a b c w = go f.read f.written refl refl w
  where
    refuted : {r : Result ℕ} {m : String} {k : ℕ} → r ≡ fail m k → success r ≡ true → ⊥
    refuted e h = cc

    go :
        (r v : Result ℕ)
        → f.read ≡ r
        → f.written ≡ v
        → (success f.read ≡ true) × (success f.written ≡ true)
        → set_blocking f c (socket_at fd a b) ≡ (done, socket_at fd a c)
    go (ok n m k) (ok o p l) e g h = rw (e, g, set_blocking) refl
    go (fail m k) v e g h = absurd (refuted e h.0)
    go (ok n m k) (fail p l) e g h = absurd (refuted g h.1)

as_bool-blocking :
    (asked : Result ℕ) (fd : ℕ) (a : Option SocketAddress) (b : Bool)
    → success asked ≡ true
    → as_bool (blocking asked (socket_at fd a b)) ≡ true
unfolding as_bool blocking
as_bool-blocking (ok n m c) fd a b h = refl
as_bool-blocking (fail m c) fd a b h = cc

connect_lem :
    (fd : ℕ) (asked before after : Flags) (connected : Result ℕ) (address : SocketAddress)
    (a : Option SocketAddress) (b : Bool)
    → Works asked
    → Works before
    → Works after
    → connect (ok 0 "" 0) asked.read before after connected address (socket_at fd a b)
      ≡ with_address address (get_std_error connected) (socket_at fd a true)
unfolding connect
connect_lem fd asked before after connected address a b f g h =
    ap (λ m. ends m (set_blocking before true (socket_at fd a b)).1)
      (as_bool-blocking asked.read fd a b f.0)
    ∙ ap (λ (r : VoidResult × Socket). ends true r.1) (set_blocking-Works before fd a b true g)
    ∙ ap (λ (r : VoidResult × Socket). with_address address (get_std_error connected) r.1)
        (set_blocking-Works after fd a true true h)
  where
    ends : Bool → Socket → VoidResult × Socket
    ends m s = with_address address (get_std_error connected) (set_blocking after m s).1

open_socket-Works :
    (fd : ℕ) (setup : Flags) (s : Socket)
    → Works setup
    → open_socket (ok fd "" 0) setup s ≡ (done, socket_at fd s.associated_address false)
unfolding open_socket
open_socket-Works fd setup s w =
    rw (set_blocking-Works setup fd s.associated_address true false w) refl

with_address_lem :
    (connected : Result ℕ) (address : SocketAddress) (fd : ℕ) (a : Option SocketAddress)
    → let p = with_address address (get_std_error connected) (socket_at fd a true) in
      (p.1.blocks ≡ true)
      × (p.0 ≡ get_std_error connected)
      × (p.1.associated_address ≡ elim connected [ ok _ _ _ ↦ some address | fail _ _ ↦ a ])
unfolding get_std_error
with_address_lem (ok n m c) address fd a = (refl, refl, refl)
with_address_lem (fail m c) address fd a = (refl, refl, refl)

-- A socket that `open` has just made does not block, where the system sets its flags; but after
-- `connect` it blocks, whatever the system's answer to the connection is: the mode that connect puts
-- back is whether the question about it was answered. The address is kept exactly if the connection
-- was made.
pub connect_blocks :
    (fd : ℕ) (setup asked before after : Flags) (connected : Result ℕ) (address : SocketAddress)
    (s : Socket)
    → Works setup
    → Works asked
    → Works before
    → Works after
    → let opened = (open_socket (ok fd "" 0) setup s).1 in
      let p = connect (ok 0 "" 0) asked.read before after connected address opened in
      (opened.blocks ≡ false)
      × (p.1.blocks ≡ true)
      × (p.0 ≡ get_std_error connected)
      × (p.1.associated_address
          ≡ elim connected [ ok _ _ _ ↦ some address | fail _ _ ↦ s.associated_address ])
connect_blocks fd setup asked before after connected address s w f g h =
    rw
      (
        open_socket-Works fd setup s w,
        connect_lem fd asked before after connected address s.associated_address false f g h,
      )
      (let (x, y, z) = with_address_lem connected address fd s.associated_address in
        (refl, x, y, z))
