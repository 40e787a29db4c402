-- ===== src/Adiru/Start/Run/Tests.antt =====
-- A run of src/main/adiru-nosocket.cpp from its start, on the simulated machine.
use autonomous.Base.{ℕ, ◌≡◌, refl, Option, some, none, List, [], ◌∷◌}
use autonomous.Base.Int.{ℤ, pos}
use autonomous.Decimal.{decimal}
use autonomous.Sim.{Sim, sim}
use autonomous.Whole.{whole, whole_libm}
use autonomous.Broadcast.{
  Outcome, done, exits, listening, polling, handle_events, handle_each, broadcast, broadcast_to,
}
use autonomous.Filter.{Filter}
use autonomous.Gps.Thread.{Serial}
use autonomous.Adiru.{Adiru, prepare, advance, serve}
use autonomous.Adiru.Slots.{Holds, layout, readings}
use autonomous.Adiru.Tests.{quiet, stack, adiru, idle, no_result, board, bytes_of}
use autonomous.Adiru.Start.{configure, start}
use autonomous.Adiru.Start.Run.{Event, ticked, heard, Process, hear, happen, run}
use autonomous.Adiru.Start.Run.Layout.{run-Holds}
use autonomous.Adiru.Start.Run.Position.{shown, last_position, run-last_position}

instance abbrev closed_port : Serial Sim
closed_port = record { open_port = λ w. (some 6, w); read = λ fd n w. (none, w) }

abbrev to_double : List ℕ → ℤ
to_double bytes = pos 0

abbrev before : Adiru ℤ
before = record adiru { gps_unit = idle }

abbrev value_of : {A : Type 0} → A → Outcome A Sim → A
value_of old (done a w) = a
value_of old (exits w) = old

abbrev world_of : {A : Type 0} → Outcome A Sim → Sim
world_of (done a w) = w
world_of (exits w) = w

abbrev started : Outcome (Adiru ℤ × Option ℕ) Sim
started = start ⦃os = sim⦄ stack bytes_of to_double before board

start_well : started ≡ done (value_of (before, none) started) (world_of started)
unfolding start autonomous.Broadcast.init listening polling
start_well = refl

-- "$GPGGA,12,4807,S,01131,E,1,08,2,545,M"
abbrev sentence : List ℕ
sentence =
    36 ∷ 71 ∷ 80 ∷ 71 ∷ 71 ∷ 65 ∷ 44 ∷ 49 ∷ 50 ∷ 44 ∷ 52 ∷ 56 ∷ 48 ∷ 55 ∷ 44 ∷ 83 ∷ 44 ∷ 48 ∷ 49
    ∷ 49 ∷ 51 ∷ 49 ∷ 44 ∷ 69 ∷ 44 ∷ 49 ∷ 44 ∷ 48 ∷ 56 ∷ 44 ∷ 50 ∷ 44 ∷ 53 ∷ 52 ∷ 53 ∷ 44 ∷ 77 ∷ []

-- A line without a position, a tick, and a sentence with one.
abbrev events : List (Event ℤ)
events = heard (36 ∷ []) ∷ ticked (pos 16) ∷ heard sentence ∷ []

abbrev first : Process ℤ
first = record { adiru = (value_of (before, none) started).0; result = no_result }

abbrev ended : Outcome (Process ℤ) Sim
ended = run decimal stack bytes_of events first board

run_well : ended ≡ done (value_of first ended) (world_of ended)
unfolding run happen hear autonomous.Adiru.tick serve autonomous.Broadcast.tick handle_events
    handle_each broadcast broadcast_to prepare advance start autonomous.Broadcast.init listening
    polling configure
run_well = refl

run-last_position_example :
    let d = (prepare stack (pos 17) (value_of first ended).adiru (world_of ended)).0.slots in
    d 21 ∷ d 22 ∷ d 23 ∷ []
    ≡ shown (pos 0 ∷ pos 0 ∷ pos 0 ∷ []) (last_position decimal events no_result none)
run-last_position_example =
    run-last_position stack decimal bytes_of to_double before (value_of (before, none) started).0
      (value_of (before, none) started).1 board (world_of started) board (world_of ended) no_result
      events (value_of first ended) (pos 17) refl start_well run_well

run-Holds_example :
    let p = value_of first ended in
    (f0 f1 f2 f3 f4 f5 : Filter ℤ) × (p.adiru.filters ≡ f0 ∷ f1 ∷ f2 ∷ f3 ∷ f4 ∷ f5 ∷ [])
    × Holds
        (prepare stack (pos 17) p.adiru (world_of ended)).0.slots
        (layout (pos 17) (f0, f1, f2, f3, f4, f5) (readings stack p.adiru (world_of ended)))
run-Holds_example =
    run-Holds stack decimal bytes_of to_double before (value_of (before, none) started).0
      (value_of (before, none) started).1 board (world_of started) board (world_of ended) no_result
      events (value_of first ended) (pos 17) start_well run_well
