-- ===== src/Calls/Intervals.antt =====
-- Many turns of a worker of typedhandler_job_manager.go while its jobs run.
use allino.Base.{
  ℕ, ◌==◌, ◌≡◌, refl, ap, ◌∙◌, true, false, not, ◌&&◌, ◌||◌, List, [], ◌∷◌, Option, none, some,
  if◌then◌else◌, Bool-cases, inl, inr, arith,
}
use allino.Base.Bytes.{Bytes, bytes_eq, bytes_eq_refl, eq_of_bytes_eq}
use allino.JobSet.{contains, member}
use allino.JobSet.Laws.{AreDistinct}
use allino.Jobs.Table.{Db}
use allino.Jobs.Queue.{JobTask}
use allino.Jobs.Sound.{IsSound}
use allino.Calls.Options.{JobOption}
use allino.Calls.Worker.{Manager, take_job}
use allino.Calls.Turns.{Taken, take_job-Taken}

-- Every database is sound.
abbrev pub AreSound : List (ℕ × Db) → Type 0
AreSound [] = Unit
AreSound ((now, db) ∷ rest) = IsSound db × AreSound rest

module _ (options : Bytes → JobOption) (lease_dur : ℕ) where
  abbrev pub cons_taken : Option (JobTask × Db) → List Bytes → List Bytes
  cons_taken none hs = hs
  cons_taken (some (task, _)) hs =
      if (options task.handler).interval == 0 then hs else task.handler ∷ hs

  -- Turns at the given times and databases, none of whose jobs ends: the handlers with an interval
  -- that they take, in order.
  abbrev pub turns : List (ℕ × Db) → Manager → List Bytes
  turns [] m = []
  turns ((now, db) ∷ rest) m =
      let r = take_job options now lease_dur m db in cons_taken r.0 (turns rest r.1)

  -- What holds of a handler that is locked before a turn.
  Stays : Bytes → Option (JobTask × Db) × Manager → Type 0
  Stays h r =
      (contains h r.1.locked ≡ true)
      × ((hs : List Bytes) → member h hs ≡ false → member h (cons_taken r.0 hs) ≡ false)

  other_handler :
      (h g : Bytes) (m : Manager)
      → contains h m.locked ≡ true
      → contains g m.locked ≡ false
      → bytes_eq g h ≡ false
  other_handler h g m k n = elim (Bool-cases (bytes_eq g h)) [
    | inl e ↦ cc (eq_of_bytes_eq g h e)
    | inr e ↦ e
  ]

  locked-Stays :
      (now : ℕ) (m : Manager) (db : Db) (h : Bytes) (r : Option (JobTask × Db) × Manager)
      → Taken options now lease_dur m db r
      → contains h m.locked ≡ true
      → Stays h r
  unfolding Stays member
  locked-Stays now m db h (none, m') (same, _, _) k = (ap (contains h) same ∙ k, λ hs n. n)
  locked-Stays now m db h (some (task, db'), m') (_, free, _, grown, _) k = (
    grown h ∙ rw k refl,
    λ hs n. elim (Bool-cases ((options task.handler).interval == 0)) [
      | inl e ↦ rw e n
      | inr e ↦ rw (e, other_handler h task.handler m k free) n
    ],
  )

  locked_absent :
      (h : Bytes) (ts : List (ℕ × Db)) (m : Manager)
      → AreSound ts
      → contains h m.locked ≡ true
      → member h (turns ts m) ≡ false
  unfolding Stays member
  locked_absent h [] m sound k = refl
  locked_absent h ((now, db) ∷ rest) m (s, sound) k =
      let r = take_job options now lease_dur m db in
      let (locked, out) =
        locked-Stays now m db h r (take_job-Taken options now lease_dur m db s) k in
      out (turns rest r.1) (locked_absent h rest r.1 sound locked)

  distinct_step :
      (now : ℕ) (m : Manager) (db : Db) (r : Option (JobTask × Db) × Manager) (hs : List Bytes)
      → Taken options now lease_dur m db r
      → ((h : Bytes) → contains h r.1.locked ≡ true → member h hs ≡ false)
      → AreDistinct hs
      → AreDistinct (cons_taken r.0 hs)
  distinct_step now m db (none, m') hs taken out d = d
  distinct_step now m db (some (task, db'), m') hs (_, _, _, grown, _) out d =
      elim (Bool-cases ((options task.handler).interval == 0)) [
        | inl e ↦ rw e d
        | inr e ↦ rw e (out task.handler (grown task.handler ∙ taken_locked e), d)
      ]
    where
      taken_locked :
          ((options task.handler).interval == 0) ≡ false
          → (contains task.handler m.locked
              || (not ((options task.handler).interval == 0) && bytes_eq task.handler task.handler))
            ≡ true
      taken_locked e = rw (e, bytes_eq_refl task.handler) (ground arith)

  -- In any sequence of turns on sound tables, during which no job ends, no handler with an
  -- interval is taken twice.
  pub turns-AreDistinct :
      (ts : List (ℕ × Db)) (m : Manager) → AreSound ts → AreDistinct (turns ts m)
  turns-AreDistinct [] m sound = tt
  turns-AreDistinct ((now, db) ∷ rest) m (s, sound) =
      let r = take_job options now lease_dur m db in
      distinct_step now m db r (turns rest r.1) (take_job-Taken options now lease_dur m db s)
        (λ h k. locked_absent h rest r.1 sound k) (turns-AreDistinct rest r.1 sound)
