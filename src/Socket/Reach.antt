-- ===== src/Socket/Reach.antt =====
-- A server and a client of src/backend/socket.cpp on the same path.
use autonomous.Base.{ℕ, ◌<◌, ◌≡◌, refl, arith, some, List, length}
use autonomous.Gps.Thread.{c_string}
use autonomous.Socket.{
  SockaddrUn, un_address, Kernel, Socket, UnConnection, not_negative, un_fields, unix_bind,
  un_connect,
}
use autonomous.Socket.Address.{file_of, file_of_copied, strcpy-fits}

module _ {W : Type 0} ⦃kernel : Kernel W⦄ where
  -- For a path whose text, up to its first NUL, has from 1 to 107 characters, whatever the memory of
  -- the two addresses held before: `unix_bind` returns what one call of `bind` on the server's
  -- descriptor returns, `un_connect` makes one call of `connect` on the client's, both calls are given
  -- an address that names the file of this text, and the connection stands on the client's descriptor
  -- and is valid exactly where `connect` returned no negative number.
  pub un_connect-unix_bind :
      (path : List ℕ) (address : SockaddrUn) (c : UnConnection) (server client : Socket) (w v : W)
      → length address.sun_path ≡ 108
      → length c.addr.sun_path ≡ 108
      → 0 < length (c_string path)
      → length (c_string path) < 108
      → (a b : SockaddrUn) × (unix_bind address path server w
          ≡ some (kernel.bind server.fd (un_address a) w))
        × (file_of a ≡ some (c_string path))
        × (file_of b ≡ some (c_string path))
        × (let (e, v') = kernel.connect client.fd (un_address b) v in
            (c' : UnConnection) × (un_connect c path client v ≡ some (c', v'))
            × (c'.valid ≡ not_negative e)
            × (c'.fd ≡ client.fd)
            × (c'.addr ≡ b))
  unfolding unix_bind un_connect
  un_connect-unix_bind path address c server client w v size size' some_path short =
      let (p, copied) = strcpy-fits address.sun_path path (omega (arith, size, short)) in
      let (q, copied') = strcpy-fits c.addr.sun_path path (omega (arith, size', short)) in
      let (e, v') = kernel.connect client.fd (un_address (un_fields q)) v in
      (
        un_fields p,
        un_fields q,
        rw copied refl,
        file_of_copied address.sun_path path p copied some_path,
        file_of_copied c.addr.sun_path path q copied' some_path,
        (
          record { s = c.s; valid = not_negative e; addr = un_fields q; fd = client.fd },
          rw copied' refl,
          refl,
          refl,
          refl,
        ),
      )
