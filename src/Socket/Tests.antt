-- ===== src/Socket/Tests.antt =====
-- Sockets at concrete inputs.
use daylite.Prelude.{arith, some, ◌/◌, ◌%◌, ◌^◌, ◌↔◌, ℕ, ◌≡◌, refl, true, false, none}
use daylite.Socket.Addresses.{
  SockaddrIn, socket_address_to_sockaddr, sockaddr_to_socket_address, sockaddr_round,
}
use daylite.Outcome.{Result, ok, fail, failed}
use daylite.Socket.{
  SocketAddress, Socket, Flags, get_std_error, set_blocking, open_socket, close, bind, connect,
  not_open,
}
use daylite.Socket.Modes.{connect_blocks}

abbrev closed : Socket
closed = record { fd = none; associated_address = none; blocks = true }

abbrev peer : SocketAddress
peer = record { host = "127.0.0.1"; port = 8374 }

abbrev works : Flags
works = record { read = ok 2 "" 0; written = ok 0 "" 0 }

-- The connection is refused.
abbrev refused : Result ℕ
refused = fail "Connection refused" 111

connect-closed :
    connect (ok 0 "" 0) works.read works works refused peer closed ≡ (failed not_open, closed)
unfolding connect
connect-closed = refl

bind-close :
    bind (ok 0 "" 0) (ok 0 "" 0) (ok 0 "" 0) peer (close (open_socket (ok 5 "" 0) works closed).1)
    ≡ (failed not_open, record closed { blocks = false })
unfolding bind close open_socket set_blocking
bind-close = refl

connect_blocks_example :
    let opened = (open_socket (ok 5 "" 0) works closed).1 in
    let p = connect (ok 0 "" 0) works.read works works refused peer opened in
    (opened.blocks ≡ false)
    × (p.1.blocks ≡ true)
    × (p.0 ≡ get_std_error refused)
    × (p.1.associated_address ≡ none)
connect_blocks_example =
    connect_blocks 5 works works works works refused peer closed (refl, refl) (refl, refl)
      (refl, refl) (refl, refl)

-- 8374 is 0x20b6.
sockaddr_round_example :
    (s : SockaddrIn) × (back : SocketAddress) × (socket_address_to_sockaddr
        (λ h. 0x0100_007f)
        (λ h. none)
        peer
      ≡ some s)
    × (sockaddr_to_socket_address (λ n. "127.0.0.1") s ≡ some back)
    × (back.host ≡ "127.0.0.1")
    × ((back.port ≡ 8374) ↔ (8374 / 2 ^ 8 ≡ 8374 % 2 ^ 8))
sockaddr_round_example =
    sockaddr_round (λ h. 0x0100_007f) (λ h. none) (λ n. "127.0.0.1") peer (omega arith) (λ e. cc)
      (λ e. omega arith) refl
