-- ===== src/Broadcast/Tests.antt =====
-- Runs of src/util/server.cpp on a simulated network, where every system call succeeds.
use autonomous.Base.{
  ℕ, ◌+◌, ◌≡◌, ◌≢◌, refl, sym, ap, Bool, true, false, ◌||◌, some, List, [], ◌∷◌, ◌==◌, arith,
  length, if◌then◌else◌,
}
use mathlib.Core.Option.{some-injective}
use autonomous.Broadcast.{Event, Sockets, exits, contains, Server, handle_events, broadcast}
use autonomous.Broadcast.Listeners.{After, IsEpoll, IsTracked, handle_events-IsTracked}
use autonomous.Broadcast.Delivery.{Delivers, broadcast_delivers, broadcast_exits}

-- The descriptors that are watched, the messages before each client, the number of clients that have
-- been accepted, and the events that wait.
record Net : Type 0 where
  watched_fds : ℕ → Bool
  inboxes : ℕ → List (List ℕ)
  count : ℕ
  waiting : List Event

instance abbrev net : Sockets Net
net = record {
  exists_at = λ path w. (false, w);
  unlink = λ path w. (true, w);
  socket = λ w. (some 3, w);
  bind = λ fd path w. (true, w);
  listen = λ fd backlog w. (true, w);
  epoll_create = λ w. (some 4, record w { watched_fds = λ i. false });
  epoll_add = λ ep fd mask w.
      (true, record w { watched_fds = λ i. if i == fd then true else w.watched_fds i });
  epoll_del =
      λ ep fd w. (true, record w { watched_fds = λ i. if i == fd then false else w.watched_fds i });
  epoll_wait = λ ep n w. (some w.waiting, record w { waiting = [] });
  accept = λ server w. (some (server + 1 + w.count), record w { count = w.count + 1 });
  send = λ fd bytes w. (
    some (length bytes),
    record w { inboxes = λ i. if i == fd then bytes ∷ w.inboxes i else w.inboxes i },
  );
  close = λ fd w. w;
  perror = λ w. w;
}

abbrev watched : ℕ → Net → ℕ → Bool
watched ep w i = w.watched_fds i

net-IsEpoll : IsEpoll watched
net-IsEpoll = record {
  created = λ ep w w' i e. sym (ap (λ r. r.1.watched_fds i) e);
  accepted = λ ep server fd w w' e. (
    accepted_new server fd w (some-injective _ _ (ap (λ r. r.0) e)),
    λ i. sym (ap (λ r. r.1.watched_fds i) e),
  );
  added = λ ep fd mask w w' i e. sym (ap (λ r. r.1.watched_fds i) e);
  deleted = λ ep fd w w' i e. sym (ap (λ r. r.1.watched_fds i) e);
  closed = λ ep fd w i h. refl;
  waited = λ ep n es w w' i e. sym (ap (λ r. r.1.watched_fds i) e);
}
  where
    accepted_new : (server fd : ℕ) (w : Net) → server + 1 + w.count ≡ fd → fd ≢ server
    accepted_new server fd w e = omega arith

-- Client 7 is there, has hung up, and client 4 wants to connect.
abbrev busy : Net
busy = record {
  watched_fds = λ i. i == 3 || i == 7;
  inboxes = λ i. [];
  count = 0;
  waiting = record { events = 0x2010; fd = 7 } ∷ record { events = 1; fd = 3 } ∷ [];
}

abbrev server : Server
server = record { path = []; server_fd = 3; epoll_fd = 9; listeners = 7 ∷ []; payload = 5 ∷ 6 ∷ [] }

server-IsTracked : IsTracked watched server busy
server-IsTracked = record { distinct = (refl, tt); tracks = λ i. ground arith }

handle_events-IsTracked_example : After (IsTracked watched) (handle_events server busy)
handle_events-IsTracked_example =
    handle_events-IsTracked watched net-IsEpoll server busy server-IsTracked

abbrev inbox : Net → ℕ → List (List ℕ)
inbox w i = w.inboxes i

net-Delivers : Delivers inbox
net-Delivers = record { sent = λ fd bytes w w' i e. sym (ap (λ r. r.1.inboxes i) e) }

broadcast_delivers_example :
    After
      (λ u w'. (i : ℕ) → inbox w' i ≡ (if contains i (7 ∷ []) then (5 ∷ 6 ∷ []) ∷ [] else []))
      (broadcast server busy)
broadcast_delivers_example = broadcast_delivers inbox net-Delivers server busy (refl, tt)

-- The network when a client takes one byte of every message.
abbrev full : Sockets Net
full = record net { send = λ fd bytes w. (some 1, w) }

broadcast_exits_example : (w' : Net) × (broadcast ⦃os = full⦄ server busy ≡ exits w')
broadcast_exits_example = broadcast_exits ⦃os = full⦄ server busy 7 refl (λ u e. absurd (cc))
