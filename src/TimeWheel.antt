-- ===== src/TimeWheel.antt =====
-- internal/timewheel/timewheel.go: a hashed timer wheel. The callback of a task is a value of any
-- type `F`; a task has an `id` that stands for its address, so that `cancel` finds it. The mutex
-- makes each call and each tick one step.
pub mod Cyclic
pub mod Timetable
pub mod Adds
mod Tests
use allino.Base.{
  ℕ, suc, ◌+◌, ◌-◌, ◌/◌, ◌%◌, ◌==◌, Bool, true, false, List, [], ◌∷◌, ◌++◌, map, Option, none, some,
  if◌then◌else◌, ltb, leb, length, get_or, set, replicate,
}
use allino.Base.Int.{ℤ, pos, negsuc}

-- `rounds` is tested for being above 0 only, so a negative count is kept as 0.
pub record Task {ℓ} (F : Type ℓ) : Type ℓ where
  pub id : ℕ
  pub rounds : ℕ
  pub delay : ℤ
  pub fn : F
  pub canceled : Bool

pub record Wheel {ℓ} (F : Type ℓ) : Type ℓ where
  pub slots : List (List (Task F))
  pub current : ℕ
  pub tick_interval : ℕ
  pub next_id : ℕ

-- `delay / w.tickInterval` for a delay that is not negative, at least 1 where it is not 0.
unfoldable pub ticks_of : ℕ → ℕ → ℕ
ticks_of delay interval =
    if ltb (delay / interval) 1
    then (if ltb 0 delay then 1 else delay / interval)
    else delay / interval

-- The slot of a delay and its rounds; `none` is the panic of an index below 0.
unfoldable pub place : ℤ → ℕ → ℕ → ℕ → Option (ℕ × ℕ)
unfolding ticks_of
place (pos d) interval current count =
    let ticks = ticks_of d interval in some ((current + ticks) % count, ticks / count)
place (negsuc d) interval current count =
    let back = suc d / interval in
    if leb back current
    then some (current - back, 0)
    else if (back - current) % count == 0
    then some (0, 0)
    else none

module _ {ℓ} {F : Type ℓ} where
  unfoldable pub new : ℤ → ℕ → Wheel F
  new slot_count interval = record {
    slots = replicate (elim slot_count [ pos n ↦ if n == 0 then 32 else n | negsuc n ↦ 32 ]) [];
    current = 0;
    tick_interval = interval;
    next_id = 0;
  }

  -- The loop of a tick over the tasks of its slot: those that stay, and those to run.
  unfoldable pub sweep : List (Task F) → List (Task F) × List (Task F)
  sweep [] = ([], [])
  sweep (t ∷ ts) =
      let rest = sweep ts in
      if t.canceled
      then rest
      else if ltb 0 t.rounds
      then (record t { rounds = t.rounds - 1 } ∷ rest.0, rest.1)
      else (rest.0, t ∷ rest.1)

  -- A case of the ticker in `Run`, with the tasks that it starts.
  unfoldable pub tick : Wheel F → List (Task F) × Wheel F
  unfolding sweep
  tick w =
      let swept = sweep (get_or w.slots w.current []) in
      (
        swept.1,
        record w {
          slots = set w.slots w.current swept.0;
          current = (w.current + 1) % length w.slots;
        },
      )

  -- `none` is a panic: of an index below 0, or of a division by an interval of 0.
  unfoldable pub add : ℤ → F → Wheel F → Option (Task F × Wheel F)
  unfolding place
  add delay fn w =
      if w.tick_interval == 0
      then none
      else elim (place delay w.tick_interval w.current (length w.slots)) [
        | none ↦ none
        | some (idx, rounds) ↦
            let task : Task F = record {
              id = w.next_id;
              rounds = rounds;
              delay = delay;
              fn = fn;
              canceled = false;
            } in
            some (
              task,
              record w {
                slots = set w.slots idx (get_or w.slots idx [] ++ task ∷ []);
                next_id = w.next_id + 1;
              },
            )
      ]

  -- A task that has run is added again where its callback asked for it.
  unfoldable pub rearm : Task F → Bool → Wheel F → Option (Wheel F)
  unfolding add
  rearm t again w =
      if again then elim (add t.delay t.fn w) [ none ↦ none | some (_, w') ↦ some w' ] else some w

  unfoldable pub mark : ℕ → Task F → Task F
  mark id t = if t.id == id then record t { canceled = true } else t

  unfoldable pub cancel : ℕ → Wheel F → Wheel F
  unfolding mark
  cancel id w = record w { slots = map (map (mark id)) w.slots }

  unfoldable pub reset : Task F → ℤ → Wheel F → Option (Wheel F)
  unfolding add cancel
  reset t delay w = elim (add delay t.fn (cancel t.id w)) [ none ↦ none | some (_, w') ↦ some w' ]
