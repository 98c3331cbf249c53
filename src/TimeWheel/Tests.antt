-- ===== src/TimeWheel/Tests.antt =====
-- Runs of internal/timewheel/timewheel.go, and instances of its theorems.
use allino.Base.{false, ℕ, ◌≡◌, refl, map, [], ◌∷◌, ◌++◌, Option, none, some, arith}
use allino.Base.Int.{pos}
use allino.TimeWheel.{Task, Wheel, new, tick, add, ticks_of}
use allino.TimeWheel.Timetable.{IsRunning, plain, after, timetable, after-timetable}
use allino.TimeWheel.Adds.{Adds, add-Adds, new-IsRunning}

-- Four slots of 100, and callbacks that are numbers.
abbrev wheel : Wheel ℕ
wheel = new (pos 4) 100

wheel-IsRunning : IsRunning wheel
wheel-IsRunning = new-IsRunning (pos 4) 100 (omega arith)

abbrev added : Option (Task ℕ × Wheel ℕ) → Task ℕ × Wheel ℕ
added none = (record { id = 0; rounds = 0; delay = pos 0; fn = 0; canceled = false }, wheel)
added (some r) = r

abbrev armed : Task ℕ × Wheel ℕ
armed = added (add (pos 950) 7 wheel)

-- Nine ticks from now in a wheel of four slots: two rounds and one slot.
armed_run :
    map (λ (t : Task ℕ). t.fn) (tick (after 8 armed.1)).0
      ++ 0 ∷ map (λ (t : Task ℕ). t.fn) (tick (after 9 armed.1)).0
    ≡ 0 ∷ 7 ∷ []
unfolding add tick after new
armed_run = refl

after-timetable_example : map plain (tick (after 9 wheel)).0 ≡ timetable wheel 9
after-timetable_example = after-timetable 9 wheel wheel-IsRunning

add-Adds_example :
    (t : Task ℕ) × (w' : Wheel ℕ) × (add (pos 950) 7 wheel ≡ some (t, w'))
    × IsRunning w'
    × (t.fn ≡ 7)
    × Adds (ticks_of 950 wheel.tick_interval) t wheel w'
add-Adds_example = add-Adds 950 7 wheel wheel-IsRunning
