-- ===== src/Socket.antt =====
-- src/backend/socket.cpp, include/backend/socket.h: sockets and their connections. The system calls
-- are the fields of `Kernel`; an `int` is an integer, and a failed call returns a negative one. A
-- variable that the code declares without a value is an argument, with what is in the memory; a
-- pointer is the number of its address. A copy past the end of `sun_path` is `none`.
pub mod Address
pub mod Reach
mod Tests
use autonomous.Base.{
  ℕ, ◌-◌, ◌/◌, ◌%◌, ◌^◌, Bool, true, false, not, ◌==◌, Option, none, some, List, [], ◌∷◌, ◌++◌,
  length, ltb, bit_and, bit_or, if◌then◌else◌, ◌>>=◌,
}
use autonomous.Base.Int.{ℤ, pos, negsuc, leb_ℤ}
use autonomous.I2c.{overwrite}
use autonomous.Gps.Thread.{c_string}

-- sock_domain, sock_type
pub data SockDomain : Type 0 where
  unix : SockDomain
  inet : SockDomain

pub data SockType : Type 0 where
  tcp : SockType
  udp : SockType

-- AF_UNIX, AF_INET
abbrev pub domain_code : SockDomain → ℕ
domain_code unix = 1
domain_code inet = 2

-- SOCK_STREAM, SOCK_DGRAM
abbrev pub type_code : SockType → ℕ
type_code tcp = 1
type_code udp = 2

-- struct sockaddr_un, with the 108 characters of its path.
pub record SockaddrUn : Type 0 where
  pub sun_family : ℕ
  pub sun_path : List ℕ

-- struct sockaddr_in
pub record SockaddrIn : Type 0 where
  pub sin_family : ℕ
  pub sin_port : ℕ
  pub s_addr : ℕ
  pub sin_zero : List ℕ

-- What `(sockaddr *) &address` points to.
pub data Sockaddr : Type 0 where
  un_address : SockaddrUn → Sockaddr
  in_address : SockaddrIn → Sockaddr

-- `accept` writes the peer's address over the one that it is given; `read` returns its result and
-- the bytes that it stored, `poll` its result for one descriptor and the events that are asked for.
pub record Kernel (W : Type 0) : Type 0 where
  pub socket : ℕ → ℕ → ℕ → W → ℤ × W
  pub setsockopt : ℤ → ℤ → ℤ → List ℕ → W → ℤ × W
  pub bind : ℤ → Sockaddr → W → ℤ × W
  pub listen : ℤ → ℤ → W → ℤ × W
  pub accept_un : ℤ → SockaddrUn → W → (ℤ × SockaddrUn) × W
  pub accept_in : ℤ → SockaddrIn → W → (ℤ × SockaddrIn) × W
  pub connect : ℤ → Sockaddr → W → ℤ × W
  pub read : ℤ → ℤ → W → (ℤ × List ℕ) × W
  pub send : ℤ → List ℕ → ℤ → ℤ → W → ℤ × W
  pub get_flags : ℤ → W → ℤ × W
  pub set_flags : ℤ → ℤ → W → ℤ × W
  pub poll : ℤ → ℕ → ℤ → W → ℤ × W
  pub close : ℤ → W → ℤ × W
  pub htons : ℕ → ℕ

pub record Socket : Type 0 where
  pub fd : ℤ
  pub addr : ℤ
  pub port : ℤ
  pub opened : Bool

-- `s` is the address of a socket.
pub record UnConnection : Type 0 where
  pub s : ℕ
  pub valid : Bool
  pub addr : SockaddrUn
  pub fd : ℤ

pub record InConnection : Type 0 where
  pub s : ℕ
  pub valid : Bool
  pub addr : SockaddrIn
  pub fd : ℤ

-- `e >= 0`
abbrev pub not_negative : ℤ → Bool
not_negative e = leb_ℤ (pos 0) e

-- An `int` as a `bool`.
abbrev pub not_zero : ℤ → Bool
not_zero (pos n) = not (n == 0)
not_zero (negsuc n) = true

-- An `int` as a number of `w` bits: `(uint16_t) port` and `(uint32_t) addr`.
abbrev pub to_unsigned : ℕ → ℤ → ℕ
to_unsigned w (pos n) = n % 2 ^ w
to_unsigned w (negsuc n) = 2 ^ w - 1 - n % 2 ^ w

-- `strcpy`: the characters of `src` before its first NUL, and a NUL.
pub strcpy : List ℕ → List ℕ → Option (List ℕ)
strcpy dest src =
    let text = c_string src in
    if ltb (length text) (length dest) then some (overwrite (text ++ 0 ∷ []) dest) else none

-- `flags | O_NONBLOCK` in two's complement.
abbrev pub or_nonblock : ℤ → ℤ
or_nonblock (pos n) = pos (bit_or n 0x800)
or_nonblock (negsuc n) = negsuc (n - bit_and n 0x800)

-- The bytes of a pointer in memory.
abbrev pub pointer_bytes : ℕ → ℕ → List ℕ
pointer_bytes ℕ.zero p = []
pointer_bytes (ℕ.suc n) p = p % 256 ∷ pointer_bytes n (p / 256)

-- The three fields that `in_bind` and `in_connect` store; `swap` is `htons`.
abbrev pub in_fields : (ℕ → ℕ) → ℤ → ℤ → SockaddrIn → SockaddrIn
in_fields swap addr port address = record address {
  sin_family = domain_code inet;
  s_addr = to_unsigned 32 addr;
  sin_port = swap (to_unsigned 16 port);
}

-- The fields that `unix_bind` and `un_connect` store, from the path that is copied.
abbrev pub un_fields : List ℕ → SockaddrUn
un_fields sun_path = record { sun_family = domain_code unix; sun_path = sun_path }

module _ {W : Type 0} ⦃kernel : Kernel W⦄ where
  pub new_socket : SockDomain → SockType → W → Socket × W
  new_socket domain type w =
      let (fd, w') = kernel.socket (domain_code domain) (type_code type) 0 w in
      (record { fd = fd; addr = pos 0; port = pos 0; opened = false }, w')

  -- The option's value is `optval` itself, a pointer of eight bytes, and not what it points to.
  pub set_socket_option : Socket → ℤ → ℤ → ℕ → ℕ → W → ℤ × W
  set_socket_option this lvl opt optval optlen w =
      kernel.setsockopt this.fd lvl opt (pointer_bytes 8 optval) w

  pub in_bind : SockaddrIn → ℤ → ℤ → Socket → W → ℤ × W
  in_bind address addr port this w =
      kernel.bind this.fd (in_address (in_fields kernel.htons addr port address)) w

  pub unix_bind : SockaddrUn → List ℕ → Socket → W → Option (ℤ × W)
  unix_bind address path this w = strcpy address.sun_path path >>= λ sun_path.
      some (kernel.bind this.fd (un_address (un_fields sun_path)) w)

  pub listen : ℤ → Socket → W → ℤ × W
  listen backlog this w = kernel.listen this.fd backlog w

  pub make_non_block : Socket → W → W
  make_non_block this w =
      let (flags, w') = kernel.get_flags this.fd w in
      (kernel.set_flags this.fd (or_nonblock flags) w').1

  pub un_accept : UnConnection → ℕ → Socket → W → UnConnection × W
  un_accept c this_address this w =
      let ((fd, addr), w') = kernel.accept_un this.fd c.addr w in
      (record { s = this_address; valid = not_negative fd; addr = addr; fd = fd }, w')

  pub in_accept : InConnection → ℕ → Socket → W → InConnection × W
  in_accept c this_address this w =
      let ((fd, addr), w') = kernel.accept_in this.fd c.addr w in
      (record { s = this_address; valid = not_negative fd; addr = addr; fd = fd }, w')

  pub in_connect : InConnection → ℕ → ℤ → ℤ → Socket → W → InConnection × W
  in_connect c this_address addr port this w =
      let address = in_fields kernel.htons addr port c.addr in
      let (e, w') = kernel.connect this.fd (in_address address) w in
      (record { s = this_address; valid = not_negative e; addr = address; fd = this.fd }, w')

  -- `c.s` is not assigned.
  pub un_connect : UnConnection → List ℕ → Socket → W → Option (UnConnection × W)
  un_connect c path this w = strcpy c.addr.sun_path path >>= λ sun_path.
      let (e, w') = kernel.connect this.fd (un_address (un_fields sun_path)) w in
      some (record { s = c.s; valid = not_negative e; addr = un_fields sun_path; fd = this.fd }, w')

  -- The result, and the buffer with the bytes that were stored.
  pub read : ℤ → List ℕ → ℤ → W → (ℤ × List ℕ) × W
  read fd buffer len w =
      let ((e, bytes), w') = kernel.read fd len w in ((e, overwrite bytes buffer), w')

  pub un_read : UnConnection → List ℕ → ℤ → W → (ℤ × List ℕ) × W
  un_read c buffer len w = read c.fd buffer len w

  pub un_send : UnConnection → List ℕ → ℤ → W → ℤ × W
  un_send c buffer len w = kernel.send c.fd buffer len (pos 0) w

  pub in_read : InConnection → List ℕ → ℤ → W → (ℤ × List ℕ) × W
  in_read c buffer len w = read c.fd buffer len w

  pub in_send : InConnection → List ℕ → ℤ → W → ℤ × W
  in_send c buffer len w = kernel.send c.fd buffer len (pos 0) w

  -- A result of `poll` that is not zero is true, a negative one as well; POLLIN is 1.
  pub can_read : UnConnection → W → Bool × W
  can_read c w = let (e, w') = kernel.poll c.fd 1 (pos 0) w in (not_zero e, w')

  pub un_close : UnConnection → W → ℤ × UnConnection × W
  un_close c w = let (e, w') = kernel.close c.fd w in (e, record c { valid = false }, w')

  pub in_close : InConnection → W → ℤ × InConnection × W
  in_close c w = let (e, w') = kernel.close c.fd w in (e, record c { valid = false }, w')

  pub close : Socket → W → ℤ × Socket × W
  close this w = let (e, w') = kernel.close this.fd w in (e, record this { opened = false }, w')
