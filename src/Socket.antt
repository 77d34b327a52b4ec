-- ===== src/Socket.antt =====
-- libdaylite/src/tcp_socket.cpp and .hpp, and socket_address.hpp, as on Linux. What the system answers
-- to a call is an argument: a value, or the failure that get_std_error makes of errno.
pub mod Modes
pub mod Addresses
mod Tests
use daylite.Prelude.{ℕ, Bool, true, false, Option, none, some, String, List, [], ◌∷◌, if◌then◌else◌}
use daylite.Outcome.{Result, ok, fail, VoidResult, done, failed}

pub record SocketAddress : Type 0 where
  pub host : String
  pub port : ℕ

-- `_fd`, where -1 is `none`, and `_associated_address`; `blocks` is the descriptor's mode, which the
-- system keeps.
pub record Socket : Type 0 where
  pub fd : Option ℕ
  pub associated_address : Option SocketAddress
  pub blocks : Bool

-- The two calls of fcntl, to read and to set the flags.
pub record Flags : Type 0 where
  pub read : Result ℕ
  pub written : Result ℕ

unfoldable pub get_std_error : Result ℕ → VoidResult
get_std_error (ok n m c) = done
get_std_error (fail m c) = fail m c

abbrev pub not_open : String
not_open = "tcp_socket not open"

-- tcp_socket::blocking
unfoldable pub blocking : Result ℕ → Socket → Result Bool
blocking flags s = elim s.fd [
  | none ↦ fail not_open 0
  | some fd ↦ elim flags [ fail m c ↦ fail m c | ok n m c ↦ ok s.blocks "" 0 ]
]

-- tcp_socket::set_blocking
unfoldable pub set_blocking : Flags → Bool → Socket → VoidResult × Socket
set_blocking f b s = elim s.fd [
  | none ↦ (failed not_open, s)
  | some fd ↦ elim f.read [
    | fail m c ↦ (fail m c, s)
    | ok n m c ↦ elim f.written [
      | fail m c ↦ (fail m c, s)
      | ok n m c ↦ (done, record s { blocks = b })
    ]
  ]
]

-- tcp_socket::open. A new descriptor blocks; the result of setup_socket is not looked at.
unfoldable pub open_socket : Result ℕ → Flags → Socket → VoidResult × Socket
unfolding set_blocking
open_socket (fail m c) f s = (fail m c, record s { fd = none })
open_socket (ok fd m c) f s =
    (done, (set_blocking f false (record s { fd = some fd; blocks = true })).1)

-- tcp_socket::close
unfoldable pub close : Socket → Socket
close s = elim s.fd [ none ↦ s | some fd ↦ record s { fd = none; associated_address = none } ]

-- tcp_socket::bind, where `resolved` is what becomes of the address.
unfoldable pub bind : Result ℕ → Result ℕ → Result ℕ → SocketAddress → Socket → VoidResult × Socket
bind resolved reused bound address s = elim s.fd [
  | none ↦ (failed not_open, s)
  | some fd ↦ elim resolved [
    | fail m c ↦ (fail m c, s)
    | ok _ _ _ ↦ elim reused [
      | fail m c ↦ (fail m c, s)
      | ok _ _ _ ↦ elim bound [
        | fail m c ↦ (fail m c, s)
        | ok _ _ _ ↦ (done, record s { associated_address = some address })
      ]
    ]
  ]
]

-- The conversion of a `result<bool>` to a `bool` tells whether it is a success.
unfoldable pub as_bool : Result Bool → Bool
as_bool (ok b m c) = true
as_bool (fail m c) = false

abbrev pub with_address : SocketAddress → VoidResult → Socket → VoidResult × Socket
with_address address (fail m c) s = (fail m c, s)
with_address address (ok a m c) s = (ok a m c, record s { associated_address = some address })

-- tcp_socket::connect. The mode is asked for, set to blocking for the call, and set again to what was
-- asked for.
unfoldable pub connect :
    Result ℕ → Result ℕ → Flags → Flags → Result ℕ → SocketAddress → Socket → VoidResult × Socket
unfolding blocking set_blocking get_std_error as_bool
connect resolved asked before after connected address s = elim s.fd [
  | none ↦ (failed not_open, s)
  | some fd ↦ elim resolved [
    | fail m c ↦ (fail m c, s)
    | ok _ _ _ ↦
        let blocking_mode = as_bool (blocking asked s) in
        let s1 = (set_blocking before true s).1 in
        let s2 = (set_blocking after blocking_mode s1).1 in
        with_address address (get_std_error connected) s2
  ]
]

-- tcp_socket::listen
unfoldable pub listen : Result ℕ → Socket → VoidResult
unfolding get_std_error
listen listening s = elim s.fd [ none ↦ failed not_open | some fd ↦ get_std_error listening ]

-- tcp_socket::accept and the constructor of the socket that it makes.
unfoldable pub accept : Result ℕ → Flags → SocketAddress → Result Socket
unfolding set_blocking
accept (fail m c) f peer = fail m c
accept (ok fd m c) f peer =
    ok
      (set_blocking f false
        (record { fd = some fd; associated_address = some peer; blocks = true })).1
      "" 0

-- tcp_socket::send and tcp_socket::recv
unfoldable pub transfer : Result ℕ → Result ℕ
transfer (ok n m c) = ok n "" 0
transfer (fail m c) = fail m c
