-- ===== src/Monitor/Received.antt =====
-- What src/main/monitor.cpp receives of src/main/adiru-nosocket.cpp: the bytes of `data` on one side
-- are the bytes of `data` on the other.
use autonomous.Base.{ℕ, ◌*◌, ◌≡◌, List, length, take, drop}
use autonomous.Adiru.{Slots}

module _ {F : Type 0} where
  -- `recv(fd, (char*) data, sizeof(data), 0)`: the slot `i` gets the eight bytes from `8 * i` on.
  pub receive : (List ℕ → F) → List ℕ → Slots F
  receive to_double bytes i = to_double (take 8 (drop (8 * i) bytes))

  -- A double is eight bytes in memory, from which it can be read back.
  pub record IsMemory (bytes_of : F → List ℕ) (to_double : List ℕ → F) : Type 0 where
    pub eight : (v : F) → length (bytes_of v) ≡ 8
    pub read_back : (v : F) → to_double (bytes_of v) ≡ v
