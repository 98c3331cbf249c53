-- ===== src/TimeWheel/Adds.antt =====
-- What `Add` and `Cancel` of internal/timewheel/timewheel.go do to the tasks of every later tick.
use allino.Base.{
  ℕ, zero, suc, ◌+◌, ◌/◌, ◌%◌, ◌<◌, ◌==◌, ==_ne, ◌≡◌, ◌≢◌, refl, ap, sym, ◌∙◌, Bool, false, List,
  [], ◌∷◌, ◌++◌, map, append-nil, some, if◌then◌else◌, arith, length, get_or, set, length-set,
  length-replicate, dec_eq, dec_le,
}
use native.Mathlib.Nat.{mod-lt}
use allino.Base.Int.{ℤ, pos, negsuc}
use allino.TimeWheel.{Task, Wheel, ticks_of, place, new, tick, add, mark, cancel, reset}
use allino.TimeWheel.Cyclic.{same_slot, get_or-set, get_or-set_other}
use allino.TimeWheel.Timetable.{
  IsRunning, plain, pick, pick-append, timetable, after, after-timetable,
}

-- Two ticks of the same slot and the same round are the same.
same_place : (c j k n : ℕ) → 0 < n → (c + j) % n ≡ (c + k) % n → (j / n == k / n) ≡ (k == j)
same_place c j k n p e = elim (dec_eq (j / n) (k / n)) [
  | yes d ↦
      let one : k ≡ j = elim (dec_le j k) [
        | yes l ↦ sym (same_slot c j k n p l e d)
        | no l ↦ same_slot c k j n p (omega (arith, l)) (sym e) (sym d)
      ] in
      ground (arith, d, one)
  | no d ↦
      let two : k ≢ j = λ q. d (ap (λ m. m / n) (sym q)) in
      ==_ne (j / n) (k / n) d ∙ sym (==_ne k j two)
]

module _ {ℓ} {F : Type ℓ} where
  -- The task alone in the list of the tick that is its own.
  abbrev pub alone : Bool → Task F → List (Task F)
  alone b t = if b then plain t ∷ [] else []

  pick-one : (r : ℕ) (t : Task F) → t.canceled ≡ false → pick r (t ∷ []) ≡ alone (t.rounds == r) t
  unfolding pick
  pick-one r t e = rw e refl

  -- A task put into the slot of tick `j` with the rounds of tick `j`, read at tick `k`.
  put-slot :
      (slots : List (List (Task F))) (c j k : ℕ) (t : Task F)
      → 0 < length slots
      → t.rounds ≡ j / length slots
      → t.canceled ≡ false
      → let i = (c + j) % length slots in
        pick
          (k / length slots)
          (get_or (set slots i (get_or slots i [] ++ t ∷ [])) ((c + k) % length slots) [])
        ≡ pick (k / length slots) (get_or slots ((c + k) % length slots) []) ++ alone (k == j) t
  put-slot slots c j k t p rounds live =
      let n = length slots in
      elim (dec_eq ((c + j) % n) ((c + k) % n)) [
        | yes e ↦
            let own = get_or slots ((c + j) % n) [] in
            let landed = get_or-set slots ((c + j) % n) (own ++ t ∷ []) [] (mod-lt (c + j) p) in
            rw (sym e, landed, pick-append (k / n) own (t ∷ []))
              (ap (λ (ts : List (Task F)). pick (k / n) own ++ ts)
                (pick-one (k / n) t live
                  ∙ ap (λ b. alone b t) (ap (λ m. m == k / n) rounds ∙ same_place c j k n p e)))
        | no ne ↦
            let far : (k == j) ≡ false = ==_ne k j (λ q. ne (ap (λ m. (c + m) % n) (sym q))) in
            rw
              (
                get_or-set_other slots ((c + j) % n) ((c + k) % n)
                    (get_or slots ((c + j) % n) [] ++ t ∷ []) [] ne,
                far,
              )
              (sym (append-nil _))
      ]

  -- The task that `Add` makes for a delay that is not negative, and the wheel with it.
  abbrev task_for : ℕ → F → Wheel F → Task F
  task_for d fn w = record {
    id = w.next_id;
    rounds = ticks_of d w.tick_interval / length w.slots;
    delay = pos d;
    fn = fn;
    canceled = false;
  }

  abbrev with_task : ℕ → F → Wheel F → Wheel F
  with_task d fn w =
      let i = (w.current + ticks_of d w.tick_interval) % length w.slots in
      record w {
        slots = set w.slots i (get_or w.slots i [] ++ task_for d fn w ∷ []);
        next_id = w.next_id + 1;
      }

  add-with_task :
      (d : ℕ) (fn : F) (w : Wheel F)
      → IsRunning w
      → add (pos d) fn w ≡ some (task_for d fn w, with_task d fn w)
  unfolding add place
  add-with_task d fn w h = rw (==_ne w.tick_interval 0 (omega (arith, h.moving))) refl

  with_task-IsRunning : (d : ℕ) (fn : F) (w : Wheel F) → IsRunning w → IsRunning (with_task d fn w)
  with_task-IsRunning d fn w h = record { in_range = rw length-set h.in_range; moving = h.moving }

  with_task-timetable :
      (d : ℕ) (fn : F) (w : Wheel F) (k : ℕ)
      → IsRunning w
      → timetable (with_task d fn w) k
        ≡ timetable w k ++ alone (k == ticks_of d w.tick_interval) (task_for d fn w)
  unfolding timetable
  with_task-timetable d fn w k h = rw length-set (
      put-slot w.slots w.current (ticks_of d w.tick_interval) k (task_for d fn w)
        (omega (arith, h.in_range)) refl refl)

  -- The wheel `w'` runs at every tick what `w` does, and at tick number `j` the task too.
  abbrev pub Adds : ℕ → Task F → Wheel F → Wheel F → Type ℓ
  Adds j t w w' =
      (k : ℕ) → map plain (tick (after k w')).0 ≡ map plain (tick (after k w)).0 ++ alone (k == j) t

  -- Add on a running wheel, with a delay that is not negative, does not panic and leaves the
  -- wheel running; at every later tick the wheel then runs what it would have run before, and
  -- the new task exactly once: at the tick with the number of ticks of its delay, counted from
  -- 0.
  pub add-Adds :
      (d : ℕ) (fn : F) (w : Wheel F)
      → IsRunning w
      → (t : Task F) × (w' : Wheel F) × (add (pos d) fn w ≡ some (t, w'))
        × IsRunning w'
        × (t.fn ≡ fn)
        × Adds (ticks_of d w.tick_interval) t w w'
  add-Adds d fn w h = (
    task_for d fn w,
    with_task d fn w,
    add-with_task d fn w h,
    with_task-IsRunning d fn w h,
    refl,
    λ k.
        after-timetable k (with_task d fn w) (with_task-IsRunning d fn w h)
        ∙ with_task-timetable d fn w k h
        ∙ ap
            (λ (ts : List (Task F)).
              ts ++ alone (k == ticks_of d w.tick_interval) (task_for d fn w))
            (sym (after-timetable k w h)),
  )

  -- The tasks but the one with the id.
  abbrev pub others : ℕ → List (Task F) → List (Task F)
  others id [] = []
  others id (t ∷ ts) = let rest = others id ts in if t.id == id then rest else t ∷ rest

  get_or-mark :
      (id : ℕ) (slots : List (List (Task F))) (i : ℕ)
      → get_or (map (map (mark id)) slots) i [] ≡ map (mark id) (get_or slots i [])
  get_or-mark id [] i = refl
  get_or-mark id (ts ∷ slots) zero = refl
  get_or-mark id (ts ∷ slots) (suc i) = get_or-mark id slots i

  pick-mark : (id r : ℕ) (ts : List (Task F)) → pick r (map (mark id) ts) ≡ others id (pick r ts)
  unfolding pick mark
  pick-mark id r [] = refl
  pick-mark id r (t ∷ ts) = ground (arith, pick-mark id r ts)

  length-mark :
      (id : ℕ) (slots : List (List (Task F))) → length (map (map (mark id)) slots) ≡ length slots
  length-mark id [] = refl
  length-mark id (ts ∷ slots) = ap suc (length-mark id slots)

  cancel-IsRunning : (id : ℕ) (w : Wheel F) → IsRunning w → IsRunning (cancel id w)
  unfolding cancel
  cancel-IsRunning id w h = record {
    in_range = rw (length-mark id w.slots) h.in_range;
    moving = h.moving;
  }

  cancel-timetable :
      (id : ℕ) (w : Wheel F) (k : ℕ) → timetable (cancel id w) k ≡ others id (timetable w k)
  unfolding timetable cancel
  cancel-timetable id w k =
      rw (length-mark id w.slots, get_or-mark id w.slots) (pick-mark id (k / length w.slots) _)

  -- After a cancellation on a running wheel, every later tick runs what it would have run but
  -- the cancelled task.
  pub cancel-others :
      (id : ℕ) (w : Wheel F) (k : ℕ)
      → IsRunning w
      → map plain (tick (after k (cancel id w))).0 ≡ others id (map plain (tick (after k w)).0)
  cancel-others id w k h =
      after-timetable k (cancel id w) (cancel-IsRunning id w h)
      ∙ cancel-timetable id w k
      ∙ ap (others id) (sym (after-timetable k w h))

  -- Reset on a running wheel, with a delay that is not negative, does not panic and leaves the
  -- wheel running; at every later tick the wheel then runs what it would have run but the old
  -- task, and a new task with its callback at the tick with the number of ticks of the delay.
  pub reset-Adds :
      (t : Task F) (d : ℕ) (w : Wheel F)
      → IsRunning w
      → (t' : Task F) × (w' : Wheel F) × (reset t (pos d) w ≡ some w')
        × IsRunning w'
        × (t'.fn ≡ t.fn)
        × ((k : ℕ)
            → map plain (tick (after k w')).0
              ≡ others t.id (map plain (tick (after k w)).0)
                ++ alone (k == ticks_of d w.tick_interval) t')
  unfolding reset
  reset-Adds t d w h =
      let (t', w', made, running, same, adds) =
        add-Adds d t.fn (cancel t.id w) (cancel-IsRunning t.id w h) in
      (
        t',
        w',
        rw (made, reset),
        running,
        same,
        λ k.
            adds k
            ∙ ap (λ (ts : List (Task F)). ts ++ alone (k == ticks_of d w.tick_interval) t')
                (cancel-others t.id w k h),
      )

  -- The wheel that `New` makes runs, for every number of slots.
  pub new-IsRunning :
      (slot_count : ℤ) (interval : ℕ) → 0 < interval → IsRunning {F = F} (new slot_count interval)
  unfolding new
  new-IsRunning (pos n) interval p = record {
    in_range = rw length-replicate (ground arith);
    moving = p;
  }
  new-IsRunning (negsuc n) interval p = record { in_range = omega arith; moving = p }
