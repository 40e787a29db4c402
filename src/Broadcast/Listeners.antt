-- ===== src/Broadcast/Listeners.antt =====
-- The set `listeners` of src/util/server.cpp against the clients that the polling structure watches.
use autonomous.Base.{
  ℕ, ◌≡◌, ◌≢◌, refl, inl, inr, Bool, true, false, not, ◌&&◌, Option, none, some, List, [], ◌∷◌,
  ◌==◌, arith, Bool-cases, if◌then◌else◌,
}
use autonomous.Broadcast.{
  Event, Sockets, Outcome, done, exits, contains, insert, erase, Server, require, require_fd,
  epollin, chk_bit, new_server, listening, polling, init, handle_event, handle_each, handle_found,
  handle_events,
}

contains-insert :
    (i x : ℕ) (l : List ℕ) → contains i (insert x l) ≡ (if i == x then true else contains i l)
contains-insert i x l = elim (Bool-cases (contains x l)) [
  | inl present ↦ rw present (present_lem i x l present)
  | inr absent ↦ rw absent
]
  where
    present_lem :
        (i x : ℕ) (l : List ℕ)
        → contains x l ≡ true
        → contains i l ≡ (if i == x then true else contains i l)
    present_lem i x l h = ground arith

contains-erase :
    (i x : ℕ) (l : List ℕ) → contains i (erase x l) ≡ (if i == x then false else contains i l)
contains-erase i x [] = ground arith
contains-erase i x (y ∷ l) = ground (arith, contains-erase i x l)

-- No element of the list stands in it twice.
abbrev pub Distinct : List ℕ → Type 0
Distinct [] = Unit
Distinct (x ∷ xs) = (contains x xs ≡ false) × Distinct xs

insert-Distinct : (x : ℕ) (l : List ℕ) → Distinct l → Distinct (insert x l)
insert-Distinct x l h = elim (Bool-cases (contains x l)) [
  | inl present ↦ rw present h
  | inr absent ↦ rw absent (absent, h)
]

erase-Distinct : (x : ℕ) (l : List ℕ) → Distinct l → Distinct (erase x l)
erase-Distinct x [] h = tt
erase-Distinct x (y ∷ l) h = elim (Bool-cases (x == y)) [
  | inl same ↦ rw same (erase-Distinct x l h.1)
  | inr other ↦ rw other (ground (arith, contains-erase y x l, h.0), erase-Distinct x l h.1)
]

-- What holds of the value and the world if the program goes on.
abbrev pub After : {A W : Type 0} → (A → W → Type 0) → Outcome A W → Type 0
After P (done a w) = P a w
After P (exits w) = Unit

module _ {W : Type 0} ⦃os : Sockets W⦄ where
  pub require-After :
      {A : Type 0} (P : A → W → Type 0) (r : Bool × W) (rest : W → Outcome A W)
      → ((w : W) → r ≡ (true, w) → After P (rest w))
      → After P (require r rest)
  require-After P (true, w) rest h = h w refl
  require-After P (false, w) rest h = tt

  then-After :
      {A B : Type 0} (P : A → W → Type 0) (Q : B → W → Type 0) (out : Outcome A W)
      (rest : A → W → Outcome B W)
      → After P out
      → ((a : A) (w : W) → P a w → After Q (rest a w))
      → After Q (elim out [ done a w ↦ rest a w | exits w ↦ exits w ])
  then-After P Q (done a w) rest h k = k a w h
  then-After P Q (exits w) rest h k = tt

  pub weaken-After :
      {A : Type 0} (P Q : A → W → Type 0) (out : Outcome A W)
      → ((a : A) (w : W) → P a w → Q a w)
      → After P out
      → After Q out
  weaken-After P Q (done a w) k h = k a w h
  weaken-After P Q (exits w) k h = tt

  require_fd-After :
      {A : Type 0} (P : A → W → Type 0) (r : Option ℕ × W) (rest : ℕ → W → Outcome A W)
      → ((fd : ℕ) (w : W) → r ≡ (some fd, w) → After P (rest fd w))
      → After P (require_fd r rest)
  require_fd-After P (some fd, w) rest h = h fd w refl
  require_fd-After P (none, w) rest h = tt

-- What the code relies on of the kernel: `watched ep w fd` is whether the polling structure `ep`
-- watches `fd`. A descriptor that `accept` returns is new, a new structure watches nothing, and
-- closing a descriptor that is not watched changes nothing.
pub record IsEpoll {W : Type 0} ⦃os : Sockets W⦄ (watched : ℕ → W → ℕ → Bool) : Type 0 where
  pub created :
      (ep : ℕ) (w w' : W) (i : ℕ) → os.epoll_create w ≡ (some ep, w') → watched ep w' i ≡ false
  pub accepted :
      (ep server fd : ℕ) (w w' : W)
      → os.accept server w ≡ (some fd, w')
      → (fd ≢ server) × ((i : ℕ) → watched ep w' i ≡ watched ep w i)
  pub added :
      (ep fd mask : ℕ) (w w' : W) (i : ℕ)
      → os.epoll_add ep fd mask w ≡ (true, w')
      → watched ep w' i ≡ (if i == fd then true else watched ep w i)
  pub deleted :
      (ep fd : ℕ) (w w' : W) (i : ℕ)
      → os.epoll_del ep fd w ≡ (true, w')
      → watched ep w' i ≡ (if i == fd then false else watched ep w i)
  pub closed :
      (ep fd : ℕ) (w : W) (i : ℕ)
      → watched ep w fd ≡ false
      → watched ep (os.close fd w) i ≡ watched ep w i
  pub waited :
      (ep n : ℕ) (es : List Event) (w w' : W) (i : ℕ)
      → os.epoll_wait ep n w ≡ (some es, w')
      → watched ep w' i ≡ watched ep w i

-- The listeners are the watched descriptors but the server's own, each once.
pub record IsTracked {W : Type 0} (watched : ℕ → W → ℕ → Bool) (s : Server) (w : W) : Type 0 where
  pub distinct : Distinct s.listeners
  pub tracks : (i : ℕ) → contains i s.listeners ≡ (watched s.epoll_fd w i && not (i == s.server_fd))

module _ {W : Type 0} ⦃os : Sockets W⦄ (watched : ℕ → W → ℕ → Bool) (epoll : IsEpoll watched) where
  handle_event-IsTracked :
      (e : Event) (s : Server) (w : W)
      → IsTracked watched s w
      → After (IsTracked watched) (handle_event e s w)
  unfolding handle_event
  handle_event-IsTracked e s w h =
      elim (Bool-cases (e.fd == s.server_fd && chk_bit e.events epollin)) [
        | inl connecting ↦ rw connecting (
            require_fd-After (IsTracked watched) (os.accept s.server_fd w) _ (λ fd w1 e1.
              require-After (IsTracked watched) (os.epoll_add s.epoll_fd fd 0x2010 w1) _ (λ w2 e2.
                record {
                  distinct = insert-Distinct fd s.listeners h.distinct;
                  tracks = λ i. ground (
                    arith,
                    contains-insert i fd s.listeners,
                    h.tracks i,
                    epoll.added s.epoll_fd fd 0x2010 w1 w2 i e2,
                    (epoll.accepted s.epoll_fd s.server_fd fd w w1 e1).0,
                    (epoll.accepted s.epoll_fd s.server_fd fd w w1 e1).1 i,
                  );
                })))
        | inr leaving ↦ rw leaving (
            require-After (IsTracked watched) (os.epoll_del s.epoll_fd e.fd w) _ (λ w1 e1. record {
              distinct = erase-Distinct e.fd s.listeners h.distinct;
              tracks = λ i. ground (
                arith,
                contains-erase i e.fd s.listeners,
                h.tracks i,
                epoll.deleted s.epoll_fd e.fd w w1 i e1,
                epoll.deleted s.epoll_fd e.fd w w1 e.fd e1,
                epoll.closed s.epoll_fd e.fd w1 i,
              );
            }))
      ]

  handle_each-IsTracked :
      (es : List Event) (s : Server) (w : W)
      → IsTracked watched s w
      → After (IsTracked watched) (handle_each es s w)
  unfolding handle_each
  handle_each-IsTracked [] s w h = h
  handle_each-IsTracked (e ∷ es) s w h =
      then-After (IsTracked watched) (IsTracked watched) (handle_event e s w) (handle_each es)
        (handle_event-IsTracked e s w h) (λ s' w' k. handle_each-IsTracked es s' w' k)

  -- Where the polling structure watches what was added to it and not deleted, and `accept` returns
  -- another descriptor than the server's: from a server whose listeners are the watched clients,
  -- each of them once, whatever events come, unless the program exits, after `handle_events` the
  -- listeners are again the clients that the polling structure watches, each of them once.
  pub handle_events-IsTracked :
      (s : Server) (w : W) → IsTracked watched s w → After (IsTracked watched) (handle_events s w)
  unfolding handle_events
  handle_events-IsTracked s w h = found (os.epoll_wait s.epoll_fd 10 w) refl
    where
      found :
          (r : Option (List Event) × W)
          → os.epoll_wait s.epoll_fd 10 w ≡ r
          → After (IsTracked watched) (handle_found s r)
      found (none, w') e = tt
      found (some es, w') e = handle_each-IsTracked es s w' (record {
        distinct = h.distinct;
        tracks = λ i. ground (arith, h.tracks i, epoll.waited s.epoll_fd 10 es w w' i e);
      })

  polling-IsTracked :
      (path : List ℕ) (server_fd : ℕ) (w : W)
      → After
          (λ s w'. IsTracked watched s w' × (watched s.epoll_fd w' s.server_fd ≡ true))
          (polling path server_fd w)
  unfolding polling
  polling-IsTracked path server_fd w =
      let P = λ (s : Server) (w' : W).
        IsTracked watched s w' × (watched s.epoll_fd w' s.server_fd ≡ true) in
      let made = λ (ep : ℕ) (w2 : W). done (new_server path server_fd ep) w2 in
      require_fd-After P (os.epoll_create w)
        (λ ep w1. require (os.epoll_add ep server_fd epollin w1) (made ep))
        (λ ep w1 e1. require-After P (os.epoll_add ep server_fd epollin w1) (made ep) (λ w2 e2.
          let watching = epoll.added ep server_fd epollin w1 w2 in
          (
            record {
              distinct = tt;
              tracks = λ i. ground (arith, epoll.created ep w w1 i e1, watching i e2);
            },
            ground (arith, watching server_fd e2),
          )))

  always : {A : Type 0} (out : Outcome A W) → After (λ (a : A) (w' : W). Unit) out
  always (done a w') = tt
  always (exits w') = tt

  -- Where a new polling structure watches nothing and then what is added to it: unless the program
  -- exits, `init` leaves a server whose listeners are the watched clients, of whom there are none
  -- yet, and whose own descriptor is watched.
  pub init-IsTracked :
      (path : List ℕ) (backlog : ℕ) (w : W)
      → After
          (λ s w'. IsTracked watched s w' × (watched s.epoll_fd w' s.server_fd ≡ true))
          (init path backlog w)
  unfolding init
  init-IsTracked path backlog w =
      then-After (λ (fd : ℕ) (w' : W). Unit)
        (λ s w'. IsTracked watched s w' × (watched s.epoll_fd w' s.server_fd ≡ true))
        (listening path backlog w) (polling path) (always (listening path backlog w))
        (λ fd w' k. polling-IsTracked path fd w')
