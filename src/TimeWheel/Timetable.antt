-- ===== src/TimeWheel/Timetable.antt =====
-- What internal/timewheel/timewheel.go promises: every task runs once, at its own tick.
use allino.Base.{
  ℕ, zero, suc, ◌+◌, ◌/◌, ◌%◌, ◌<◌, ◌==◌, ◌≡◌, refl, ap, sym, ◌∙◌, List, [], ◌∷◌, ◌++◌, map,
  if◌then◌else◌, arith, inl, inr, length, get_or, set, length-set,
}
use native.Mathlib.Nat.{mod-lt, mod-add-mod, mod-eq_of_lt, zero-div, add-mod-mod}
use allino.TimeWheel.{Task, Wheel, sweep, tick}
use allino.TimeWheel.Cyclic.{suc-div, around, get_or-set, get_or-set_other}

module _ {ℓ} {F : Type ℓ} where
  -- There is a slot under the hand, and time moves.
  pub record IsRunning (w : Wheel F) : Type ℓ where
    pub in_range : w.current < length w.slots
    pub moving : 0 < w.tick_interval

  -- A task apart from the rounds that it has left.
  abbrev pub plain : Task F → Task F
  plain t = record t { rounds = 0 }

  -- The tasks of a slot that are not cancelled and have so many rounds left.
  unfoldable pub pick : ℕ → List (Task F) → List (Task F)
  pick r [] = []
  pick r (t ∷ ts) =
      let rest = pick r ts in
      if t.canceled then rest else if t.rounds == r then plain t ∷ rest else rest

  -- The tasks that the tick number `k` from now is to run.
  unfoldable pub timetable : Wheel F → ℕ → List (Task F)
  unfolding pick
  timetable w k = pick (k / length w.slots) (get_or w.slots ((w.current + k) % length w.slots) [])

  pub pick-append : (r : ℕ) (xs ys : List (Task F)) → pick r (xs ++ ys) ≡ pick r xs ++ pick r ys
  unfolding pick
  pick-append r [] ys = refl
  pick-append r (t ∷ ts) ys = ground (arith, pick-append r ts ys)

  sweep-run : (ts : List (Task F)) → map plain (sweep ts).1 ≡ pick 0 ts
  unfolding sweep pick
  sweep-run [] = refl
  sweep-run (t ∷ ts) = ground (arith, sweep-run ts)

  sweep-kept : (r : ℕ) (ts : List (Task F)) → pick r (sweep ts).0 ≡ pick (suc r) ts
  unfolding sweep pick
  sweep-kept r [] = refl
  sweep-kept r (t ∷ ts) = ground (arith, sweep-kept r ts)

  pub tick-IsRunning : (w : Wheel F) → IsRunning w → IsRunning (tick w).1
  unfolding tick
  tick-IsRunning w h = record {
    in_range =
        rw (length-set w.slots w.current (sweep (get_or w.slots w.current [])).0)
          (mod-lt (w.current + 1) (omega (arith, h.in_range)));
    moving = h.moving;
  }

  tick-run : (w : Wheel F) → IsRunning w → map plain (tick w).0 ≡ timetable w 0
  unfolding tick timetable
  tick-run w h = rw (zero-div (length w.slots), here) (sweep-run (get_or w.slots w.current []))
    where
      here : (w.current + 0) % length w.slots ≡ w.current
      here = ap (λ c. c % length w.slots) (omega arith) ∙ mod-eq_of_lt h.in_range

  -- The slots after a tick, read where the next ticks read them.
  swept-slots :
      (slots : List (List (Task F))) (c k : ℕ)
      → c < length slots
      → let kept = (sweep (get_or slots c [])).0 in
        pick (k / length slots) (get_or (set slots c kept) ((c + suc k) % length slots) [])
        ≡ pick (suc k / length slots) (get_or slots ((c + suc k) % length slots) [])
  swept-slots slots c k l =
      let kept = (sweep (get_or slots c [])).0 in
      elim (suc-div k (length slots) (omega (arith, l))) [
        | inl (z, q) ↦
            let home : (c + suc k) % length slots ≡ c =
              sym (add-mod-mod c (suc k) (length slots))
              ∙ ap (λ m. (c + m) % length slots) z
              ∙ ap (λ m. m % length slots) (omega arith)
              ∙ mod-eq_of_lt l in
            rw (home, q, get_or-set slots c kept [] l)
              (sweep-kept (k / length slots) (get_or slots c []))
        | inr (ne, q) ↦ rw (
          get_or-set_other slots c ((c + suc k) % length slots) kept []
              (λ e. ne (around c (suc k) (length slots) l (sym e))),
          q,
        )
      ]

  tick-timetable :
      (w : Wheel F) (k : ℕ) → IsRunning w → timetable (tick w).1 k ≡ timetable w (suc k)
  unfolding tick timetable
  tick-timetable w k h =
      rw
        (
          length-set w.slots w.current (sweep (get_or w.slots w.current [])).0,
          mod-add-mod (w.current + 1) (length w.slots) k,
          next,
        )
        (swept-slots w.slots w.current k h.in_range)
    where
      next : w.current + 1 + k ≡ w.current + suc k
      next = omega arith

  -- The wheel after `k` ticks.
  unfoldable pub after : ℕ → Wheel F → Wheel F
  unfolding tick
  after zero w = w
  after (suc k) w = after k (tick w).1

  -- On a running wheel, the tick number k from now (counted from 0) runs, in order, the tasks
  -- that are not cancelled in the slot k steps ahead with as many rounds left as k holds turns
  -- of the wheel.
  pub after-timetable :
      (k : ℕ) (w : Wheel F) → IsRunning w → map plain (tick (after k w)).0 ≡ timetable w k
  unfolding after
  after-timetable zero w h = tick-run w h
  after-timetable (suc k) w h =
      after-timetable k (tick w).1 (tick-IsRunning w h) ∙ tick-timetable w k h
