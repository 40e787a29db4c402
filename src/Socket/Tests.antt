-- ===== src/Socket/Tests.antt =====
-- A run of src/backend/socket.cpp on a machine that keeps the addresses of its calls.
use autonomous.Base.{ℕ, zero, suc, ◌%◌, ◌*◌, ◌/◌, ◌+◌, ◌≡◌, refl, arith, false, some, List, [], ◌∷◌}
use autonomous.Base.Int.{pos, negsuc}
use autonomous.Gps.Thread.{c_string}
use autonomous.Socket.{
  Sockaddr, SockaddrUn, un_address, Kernel, Socket, UnConnection, not_negative, unix_bind,
  un_connect,
}
use autonomous.Socket.Address.{file_of}
use autonomous.Socket.Reach.{un_connect-unix_bind}

abbrev Calls : Type 0
Calls = List Sockaddr

instance abbrev machine : Kernel Calls
machine = record {
  socket = λ domain type protocol w. (pos 3, w);
  setsockopt = λ fd lvl opt value w. (pos 0, w);
  bind = λ fd a w. (pos 0, a ∷ w);
  listen = λ fd backlog w. (pos 0, w);
  accept_un = λ fd a w. ((pos 9, a), w);
  accept_in = λ fd a w. ((pos 9, a), w);
  connect = λ fd a w. (pos 0, a ∷ w);
  read = λ fd len w. ((pos 0, []), w);
  send = λ fd buffer len flags w. (len, w);
  get_flags = λ fd w. (pos 2, w);
  set_flags = λ fd flags w. (pos 0, w);
  poll = λ fd events timeout w. (pos 0, w);
  close = λ fd w. (pos 0, w);
  htons = λ n. n % 256 * 256 + n / 256;
}

abbrev garbage : ℕ → List ℕ
garbage zero = []
garbage (suc n) = 65 ∷ garbage n

-- "/a", and what stands behind it in memory.
abbrev path : List ℕ
path = 47 ∷ 97 ∷ 0 ∷ 7 ∷ []

abbrev address : SockaddrUn
address = record { sun_family = 77; sun_path = garbage 108 }

abbrev connection : UnConnection
connection = record { s = 5; valid = false; addr = address; fd = negsuc 0 }

abbrev server : Socket
server = record { fd = pos 3; addr = pos 0; port = pos 0; opened = false }

abbrev client : Socket
client = record { fd = pos 4; addr = pos 0; port = pos 0; opened = false }

un_connect-unix_bind_example :
    (a b : SockaddrUn) × (unix_bind address path server [] ≡ some (pos 0, un_address a ∷ []))
    × (file_of a ≡ some (c_string path))
    × (file_of b ≡ some (c_string path))
    × ((c' : UnConnection) × (un_connect connection path client [] ≡ some (c', un_address b ∷ []))
        × (c'.valid ≡ not_negative (pos 0))
        × (c'.fd ≡ pos 4)
        × (c'.addr ≡ b))
unfolding c_string
un_connect-unix_bind_example =
    un_connect-unix_bind path address connection server client [] [] refl refl (omega arith)
      (omega arith)
