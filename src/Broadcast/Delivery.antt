-- ===== src/Broadcast/Delivery.antt =====
-- What `broadcast` of src/util/server.cpp sends to whom.
use autonomous.Base.{
  ℕ, ◌≡◌, ◌≢◌, refl, ap, inl, inr, Bool, true, false, Option, none, some, List, [], ◌∷◌, ◌==◌,
  ==_iff, arith, Bool-cases, length, if◌then◌else◌,
}
use autonomous.Broadcast.{
  Sockets, Outcome, exits, contains, Server, require, sent_all, broadcast_to, broadcast,
}
use autonomous.Broadcast.Listeners.{Distinct, After, require-After, weaken-After}

-- What the code relies on of `send`: on a socket that keeps the boundaries of messages, a call that
-- takes all the bytes puts them as one message before the client, and before no other. The last
-- message comes first in `inbox w fd`.
pub record Delivers {W : Type 0} ⦃os : Sockets W⦄ (inbox : W → ℕ → List (List ℕ)) : Type 0 where
  pub sent :
      (fd : ℕ) (bytes : List ℕ) (w w' : W) (i : ℕ)
      → os.send fd bytes w ≡ (some (length bytes), w')
      → inbox w' i ≡ (if i == fd then bytes ∷ inbox w i else inbox w i)

module _ {W : Type 0} ⦃os : Sockets W⦄ where
  sent_all_lem :
      (bytes : List ℕ) (r : Option ℕ × W) (w' : W)
      → sent_all bytes r ≡ (true, w')
      → r ≡ (some (length bytes), w')
  sent_all_lem bytes (none, w) w' e = absurd (cc)
  sent_all_lem bytes (some n, w) w' e = ground arith

  not_sent_all :
      (bytes : List ℕ) (r : Option ℕ × W) → r.0 ≢ some (length bytes) → (sent_all bytes r).0 ≡ false
  not_sent_all bytes (none, w) h = refl
  not_sent_all bytes (some n, w) h = elim (Bool-cases (n == length bytes)) [
    | inl whole ↦ absurd (h (ap some ((==_iff n (length bytes)).0 whole)))
    | inr short ↦ short
  ]

  module _ (inbox : W → ℕ → List (List ℕ)) (delivers : Delivers inbox) where
    abbrev Delivered : List ℕ → List ℕ → W → Unit {0} → W → Type 0
    Delivered bytes fds w u w' =
        (i : ℕ) → inbox w' i ≡ (if contains i fds then bytes ∷ inbox w i else inbox w i)

    broadcast_to_lem :
        (bytes : List ℕ) (fds : List ℕ) (w : W)
        → Distinct fds
        → After (Delivered bytes fds w) (broadcast_to bytes fds w)
    unfolding broadcast_to
    broadcast_to_lem bytes [] w h = λ i. refl
    broadcast_to_lem bytes (fd ∷ fds) w h =
        require-After (Delivered bytes (fd ∷ fds) w) (sent_all bytes (os.send fd bytes w))
          (broadcast_to bytes fds)
          (λ w1 e.
            weaken-After (Delivered bytes fds w1) (Delivered bytes (fd ∷ fds) w)
              (broadcast_to bytes fds w1)
              (λ u w' k i. ground (
                arith,
                k i,
                h.0,
                delivers.sent fd bytes w w1 i (sent_all_lem bytes (os.send fd bytes w) w1 e),
              ))
              (broadcast_to_lem bytes fds w1 h.1))

    -- Where a complete `send` puts one message before its client and before no other: on a set of
    -- listeners, unless the program exits, every listener has got the data of this tick as one more
    -- message, exactly once, and nobody else has got anything.
    pub broadcast_delivers :
        (s : Server) (w : W)
        → Distinct s.listeners
        → After
            (λ u w'.
              (i : ℕ)
              → inbox w' i ≡ (if contains i s.listeners then s.payload ∷ inbox w i else inbox w i))
            (broadcast s w)
    unfolding broadcast
    broadcast_delivers s w h = broadcast_to_lem s.payload s.listeners w h

  require-false :
      {A : Type 0} (r : Bool × W) (rest : W → Outcome A W)
      → r.0 ≡ false
      → (w' : W) × (require r rest ≡ exits w')
  require-false (true, w) rest h = absurd (cc)
  require-false (false, w) rest h = (os.perror w, refl)

  require_later :
      {A : Type 0} (r : Bool × W) (rest : W → Outcome A W)
      → ((u : W) → (w' : W) × (rest u ≡ exits w'))
      → (w' : W) × (require r rest ≡ exits w')
  require_later (true, w) rest h = h w
  require_later (false, w) rest h = (os.perror w, refl)

  broadcast_to_exits :
      (bytes : List ℕ) (fds : List ℕ) (w : W) (fd : ℕ)
      → contains fd fds ≡ true
      → ((u : W) → (sent_all bytes (os.send fd bytes u)).0 ≡ false)
      → (w' : W) × (broadcast_to bytes fds w ≡ exits w')
  unfolding broadcast_to
  broadcast_to_exits bytes [] w fd here short = absurd (cc)
  broadcast_to_exits bytes (x ∷ fds) w fd here short = elim (Bool-cases (fd == x)) [
    | inl same ↦
        let e : fd ≡ x = (==_iff fd x).0 same in
        require-false (sent_all bytes (os.send x bytes w)) (broadcast_to bytes fds)
          (rw (← e) (short w))
    | inr other ↦
        let later : contains fd fds ≡ true = ground (arith, here, other) in
        require_later (sent_all bytes (os.send x bytes w)) (broadcast_to bytes fds)
          (λ u. broadcast_to_exits bytes fds u fd later short)
  ]

  -- Where `send` to one of the listeners never takes as many bytes as the data has, be it that it
  -- fails or that it takes a part, the program exits, whoever else listens.
  pub broadcast_exits :
      (s : Server) (w : W) (fd : ℕ)
      → contains fd s.listeners ≡ true
      → ((u : W) → (os.send fd s.payload u).0 ≢ some (length s.payload))
      → (w' : W) × (broadcast s w ≡ exits w')
  unfolding broadcast
  broadcast_exits s w fd here short =
      broadcast_to_exits s.payload s.listeners w fd here
        (λ u. not_sent_all s.payload (os.send fd s.payload u) (short u))
