-- ===== src/Socket/Addresses.antt =====
-- How libdaylite/src/tcp_socket.cpp turns addresses into those of the system and back, on Linux. What
-- `inet_addr`, `gethostbyname` and `inet_ntoa` give are arguments.
use daylite.Prelude.{
  ℕ, ◌+◌, ◌*◌, ◌/◌, ◌%◌, ◌<◌, ◌^◌, ◌==◌, ◌≡◌, ◌≢◌, ◌↔◌, refl, Option, none, some, String,
  String-discrete, ite, if◌then◌else◌, arith,
}
use daylite.Socket.{SocketAddress, Socket}

-- `sockaddr_in`: `sin_port` in the order of the network, and `sin_addr`.
pub record SockaddrIn : Type 0 where
  pub sin_port : ℕ
  pub sin_addr : ℕ

-- htons, of a `uint16_t`, where the machine has its lowest byte first.
unfoldable pub htons : ℕ → ℕ
htons port = port % 2 ^ 8 * 2 ^ 8 + port / 2 ^ 8

abbrev pub inaddr_any : ℕ
inaddr_any = 0

abbrev pub inaddr_none : ℕ
inaddr_none = 0xffff_ffff

module _ (inet_addr : String → ℕ) (gethostbyname : String → Option ℕ) where
  abbrev numeric : String → ℕ
  numeric host = ite (String-discrete host "") inaddr_any (inet_addr host)

  -- An address that inet_addr does not take is looked up.
  unfoldable pub socket_address_to_sockaddr : SocketAddress → Option SockaddrIn
  unfolding htons String-discrete
  socket_address_to_sockaddr address =
      if numeric address.host == inaddr_none
      then elim (gethostbyname address.host) [
        | none ↦ none
        | some addr ↦ some (record { sin_port = htons address.port; sin_addr = addr })
      ]
      else some (record { sin_port = htons address.port; sin_addr = numeric address.host })

-- The port is taken as it stands in the system's address.
unfoldable pub sockaddr_to_socket_address : (ℕ → String) → SockaddrIn → Option SocketAddress
sockaddr_to_socket_address inet_ntoa address =
    some (record { host = inet_ntoa address.sin_addr; port = address.sin_port })

-- tcp_socket::port. getsockname is given no room for an address, so that `garbage` is what the memory of
-- `addr` holds.
unfoldable pub port : SockaddrIn → Socket → Option ℕ
port garbage s = elim s.fd [ none ↦ none | some fd ↦ some garbage.sin_port ]

-- An address of numbers that is given to the system and taken back, as the address of an accepted peer
-- is, has the bytes of its port swapped: it is the same address only if the two are equal.
pub sockaddr_round :
    (inet_addr : String → ℕ) (gethostbyname : String → Option ℕ) (inet_ntoa : ℕ → String)
    (a : SocketAddress)
    → a.port < 2 ^ 16
    → a.host ≢ ""
    → inet_addr a.host ≢ inaddr_none
    → inet_ntoa (inet_addr a.host) ≡ a.host
    → (s : SockaddrIn) × (back : SocketAddress) × (socket_address_to_sockaddr inet_addr
          gethostbyname a
        ≡ some s)
      × (sockaddr_to_socket_address inet_ntoa s ≡ some back)
      × (back.host ≡ a.host)
      × ((back.port ≡ a.port) ↔ (a.port / 2 ^ 8 ≡ a.port % 2 ^ 8))
unfolding socket_address_to_sockaddr sockaddr_to_socket_address htons
sockaddr_round inet_addr gethostbyname inet_ntoa a p ne num same = (
  record { sin_port = htons a.port; sin_addr = inet_addr a.host },
  record { host = inet_ntoa (inet_addr a.host); port = htons a.port },
  ground arith,
  refl,
  same,
  (λ e. omega arith, λ e. omega arith),
)
