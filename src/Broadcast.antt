-- ===== src/Broadcast.antt =====
-- src/util/server.cpp: `broadcast_server`, which accepts clients on a local socket and sends every one
-- of them the data of a tick. The system calls are the fields of `Sockets`; a call that returns a
-- negative number is `none` or `false`. Where the code calls `exit`, the outcome is `exits`.
pub mod Listeners
pub mod Delivery
mod Tests
use autonomous.Base.{
  ℕ, zero, suc, ◌%◌, ◌^◌, Bool, true, false, not, ◌&&◌, Option, none, some, List, [], ◌∷◌, ◌==◌,
  ◌≡◌, refl, bit_and, length, if◌then◌else◌,
}

-- struct epoll_event
pub record Event : Type 0 where
  pub events : ℕ
  pub fd : ℕ

pub record Sockets (W : Type 0) : Type 0 where
  pub exists_at : List ℕ → W → Bool × W
  pub unlink : List ℕ → W → Bool × W
  pub socket : W → Option ℕ × W
  pub bind : ℕ → List ℕ → W → Bool × W
  pub listen : ℕ → ℕ → W → Bool × W
  pub epoll_create : W → Option ℕ × W
  pub epoll_add : ℕ → ℕ → ℕ → W → Bool × W
  pub epoll_del : ℕ → ℕ → W → Bool × W
  pub epoll_wait : ℕ → ℕ → W → Option (List Event) × W
  pub accept : ℕ → W → Option ℕ × W
  pub send : ℕ → List ℕ → W → Option ℕ × W
  pub close : ℕ → W → W
  pub perror : W → W

-- What a call leaves: a value and the world, or the end of the program.
pub data Outcome (A W : Type 0) : Type 0 where
  done : A → W → Outcome A W
  exits : W → Outcome A W

-- The rest of a program, unless it has ended.
abbrev pub and_then : {A B W : Type 0} → Outcome A W → (A → W → Outcome B W) → Outcome B W
and_then (done a w) rest = rest a w
and_then (exits w) rest = exits w

pub and_then-done :
    {A B W : Type 0} (out : Outcome A W) (rest : A → W → Outcome B W) (b : B) (w' : W)
    → and_then out rest ≡ done b w'
    → (a : A) × (w : W) × (out ≡ done a w) × (rest a w ≡ done b w')
and_then-done (done a w) rest b w' h = (a, w, refl, h)
and_then-done (exits w) rest b w' h = absurd (cc)

abbrev pub epollin : ℕ
epollin = 0x001

-- EPOLLHUP | EPOLLRDHUP
abbrev pub epollhup_rdhup : ℕ
epollhup_rdhup = 0x2010

pub chk_bit : ℕ → ℕ → Bool
chk_bit chked mask = bit_and (chked % 2 ^ 16) mask == mask

-- `listeners`, an unordered set: a list without repetitions.
abbrev pub contains : ℕ → List ℕ → Bool
contains x [] = false
contains x (y ∷ ys) = if x == y then true else contains x ys

abbrev pub insert : ℕ → List ℕ → List ℕ
insert x ys = if contains x ys then ys else x ∷ ys

abbrev pub erase : ℕ → List ℕ → List ℕ
erase x [] = []
erase x (y ∷ ys) = let rest = erase x ys in if x == y then rest else y ∷ rest

-- A server whose `init` has returned; `payload` is the bytes that `data` and `data_size` give.
pub record Server : Type 0 where
  pub path : List ℕ
  pub server_fd : ℕ
  pub epoll_fd : ℕ
  pub listeners : List ℕ
  pub payload : List ℕ

abbrev pub new_server : List ℕ → ℕ → ℕ → Server
new_server path server_fd epoll_fd = record {
  path = path;
  server_fd = server_fd;
  epoll_fd = epoll_fd;
  listeners = [];
  payload = [];
}

module _ {W : Type 0} ⦃os : Sockets W⦄ where
  -- The rest of a function behind a call that must succeed.
  abbrev pub require : {A : Type 0} → Bool × W → (W → Outcome A W) → Outcome A W
  require (true, w) rest = rest w
  require (false, w) rest = exits (os.perror w)

  abbrev pub require_fd : {A : Type 0} → Option ℕ × W → (ℕ → W → Outcome A W) → Outcome A W
  require_fd (some fd, w) rest = rest fd w
  require_fd (none, w) rest = exits (os.perror w)

  -- The socket that an earlier run left is removed.
  abbrev remove_old : List ℕ → Bool × W → Bool × W
  remove_old path (true, w) = os.unlink path w
  remove_old path (false, w) = (true, w)

  -- `init` up to `listen`. The path is given as the bytes that `strncpy` kept of it.
  unfoldable pub listening : List ℕ → ℕ → W → Outcome ℕ W
  listening path backlog w0 = require (remove_old path (os.exists_at path w0)) (λ w1.
      require_fd (os.socket w1) (λ server_fd w2.
        require (os.bind server_fd path w2)
          (λ w3. require (os.listen server_fd backlog w3) (λ w4. done server_fd w4))))

  -- The rest of `init`.
  unfoldable pub polling : List ℕ → ℕ → W → Outcome Server W
  polling path server_fd w0 = require_fd (os.epoll_create w0) (λ epoll_fd w1.
      require (os.epoll_add epoll_fd server_fd epollin w1)
        (λ w2. done (new_server path server_fd epoll_fd) w2))

  unfoldable pub init : List ℕ → ℕ → W → Outcome Server W
  init path backlog w0 = elim (listening path backlog w0) [
    | done server_fd w1 ↦ polling path server_fd w1
    | exits w1 ↦ exits w1
  ]

  abbrev close_all : List ℕ → W → W
  close_all [] w = w
  close_all (fd ∷ fds) w = close_all fds (os.close fd w)

  abbrev reported : Bool × W → W
  reported (true, w) = w
  reported (false, w) = os.perror w

  abbrev unlink_found : List ℕ → Bool × W → W
  unlink_found path (true, w) = reported (os.unlink path w)
  unlink_found path (false, w) = w

  pub clean_up : Server → W → W
  clean_up s w =
      let w1 = os.close s.server_fd (os.close s.epoll_fd (close_all s.listeners w)) in
      unlink_found s.path (os.exists_at s.path w1)

  -- `n_sent != data_size`
  abbrev pub sent_all : List ℕ → Option ℕ × W → Bool × W
  sent_all bytes (none, w) = (false, w)
  sent_all bytes (some n, w) = (n == length bytes, w)

  unfoldable pub broadcast_to : List ℕ → List ℕ → W → Outcome Unit W
  broadcast_to bytes [] w = done tt w
  broadcast_to bytes (fd ∷ fds) w =
      require (sent_all bytes (os.send fd bytes w)) (λ w'. broadcast_to bytes fds w')

  unfoldable pub broadcast : Server → W → Outcome Unit W
  broadcast s w = broadcast_to s.payload s.listeners w

  -- The body of the loop over the events.
  pub handle_event : Event → Server → W → Outcome Server W
  handle_event e s w =
      if e.fd == s.server_fd && chk_bit e.events epollin
      then require_fd (os.accept s.server_fd w) (λ client_fd w1.
        let s' = record s { listeners = insert client_fd s.listeners } in
        require (os.epoll_add s.epoll_fd client_fd epollhup_rdhup w1) (λ w2. done s' w2))
      else (let s' = record s { listeners = erase e.fd s.listeners } in
          require (os.epoll_del s.epoll_fd e.fd w) (λ w1. done s' (os.close e.fd w1)))

  unfoldable pub handle_each : List Event → Server → W → Outcome Server W
  handle_each [] s w = done s w
  handle_each (e ∷ es) s w = elim (handle_event e s w) [
    | done s' w' ↦ handle_each es s' w'
    | exits w' ↦ exits w'
  ]

  -- `epoll_wait` without a timeout, for at most 10 events.
  abbrev pub handle_found : Server → Option (List Event) × W → Outcome Server W
  handle_found s (none, w) = exits (os.perror w)
  handle_found s (some es, w) = handle_each es s w

  unfoldable pub handle_events : Server → W → Outcome Server W
  handle_events s w = handle_found s (os.epoll_wait s.epoll_fd 10 w)

  unfoldable pub tick : Server → W → Outcome Server W
  tick s w = elim (handle_events s w) [
    | exits w' ↦ exits w'
    | done s' w' ↦ elim (broadcast s' w') [ done u w'' ↦ done s' w'' | exits w'' ↦ exits w'' ]
  ]
