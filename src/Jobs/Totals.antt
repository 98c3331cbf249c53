-- ===== src/Jobs/Totals.antt =====
-- `Total` of typedhandler_job_sql.go: the counts that the triggers keep, read back.
use allino.Base.{
  ℕ, ◌+◌, ◌≡◌, refl, ◌∙◌, Bool, true, false, ◌&&◌, List, [], ◌∷◌, if◌then◌else◌, arith, Bool-cases,
  inl, inr,
}
use allino.Base.Bytes.{Bytes, bytes_eq, bytes_eq_comm}
use allino.Jobs.Table.{Status, status_eq, Row, Count, Db, star}
use allino.Jobs.Slots.{count_of, unit_if}
use allino.Jobs.Counts.{tally}
use allino.Jobs.Sound.{IsSound}

-- `result[status] = count`.
unfoldable pub put_total : Status → ℕ → List (Status × ℕ) → List (Status × ℕ)
put_total st n [] = (st, n) ∷ []
put_total st n ((s, m) ∷ ts) =
    let rest = put_total st n ts in if status_eq s st then (st, n) ∷ ts else (s, m) ∷ rest

-- The rows of the `SELECT`, which has no order: here from the last to the first.
unfoldable pub gather : Bytes → List Count → List (Status × ℕ)
unfolding put_total
gather root [] = []
gather root (c ∷ cs) =
    let rest = gather root cs in
    if bytes_eq c.root_id root then put_total c.status c.count rest else rest

-- Without a job id the counts of '*', else those of the first id.
unfoldable pub total : List Bytes → Db → List (Status × ℕ)
unfolding gather
total [] db = gather star db.counts
total (root ∷ ids) db = gather root db.counts

-- A read of the map, 0 where the key is missing.
unfoldable pub total_of : Status → List (Status × ℕ) → ℕ
total_of st [] = 0
total_of st ((s, n) ∷ ts) = if status_eq s st then n else total_of st ts

total_of-put_total :
    (st s : Status) (n : ℕ) (ts : List (Status × ℕ))
    → total_of st (put_total s n ts) ≡ (if status_eq s st then n else total_of st ts)
unfolding total_of put_total
total_of-put_total st s n [] = refl
total_of-put_total st s n ((q, m) ∷ ts) = ground (arith, total_of-put_total st s n ts)

total_of-gather :
    (root : Bytes) (st : Status) (cs : List Count)
    → total_of st (gather root cs) ≡ count_of root st cs
unfolding gather count_of
total_of-gather root st [] = unfold total_of in refl
total_of-gather root st (c ∷ cs) = elim (Bool-cases (bytes_eq c.root_id root)) [
  | inl e ↦
      rw (e, total_of-put_total st c.status c.count (gather root cs), total_of-gather root st cs)
        refl
  | inr e ↦ rw e (total_of-gather root st cs)
]

-- The rows with a status: all of them, or those of the first job id.
abbrev pub concerns : List Bytes → Row → Bool
concerns [] r = true
concerns (root ∷ ids) r = bytes_eq r.root_id root

abbrev pub rows_in : List Bytes → Status → List Row → ℕ
rows_in ids st [] = 0
rows_in ids st (r ∷ rs) = unit_if (concerns ids r && status_eq r.status st) + rows_in ids st rs

-- No job has the root '*', under which the triggers count all jobs.
abbrev pub AreRooted : List Row → Type 0
AreRooted [] = Unit
AreRooted (r ∷ rs) = (bytes_eq star r.root_id ≡ false) × AreRooted rs

-- The root that a call of `Total` asks for.
abbrev asked : List Bytes → Bytes
asked [] = star
asked (root ∷ ids) = root

abbrev pub IsAsked : List Bytes → Type 0
IsAsked [] = Unit
IsAsked (root ∷ ids) = bytes_eq star root ≡ false

tally-rows_in :
    (ids : List Bytes) (st : Status) (rs : List Row)
    → IsAsked ids
    → AreRooted rs
    → tally (asked ids) st rs ≡ rows_in ids st rs
tally-rows_in ids st [] a h = refl
tally-rows_in [] st (r ∷ rs) a h =
    ground (arith, tally-rows_in [] st rs a h.1, bytes_eq_comm star r.root_id, h.0)
tally-rows_in (root ∷ ids) st (r ∷ rs) a h =
    ground (arith, tally-rows_in (root ∷ ids) st rs a h.1, a)

-- On sound tables in which no job has the root *, Total, read at a status, answers the number
-- of rows with that status: of all rows where it is called without a job id, else of those
-- whose root is the first id, which is not *.
pub total-rows_in :
    (ids : List Bytes) (st : Status) (db : Db)
    → IsSound db
    → IsAsked ids
    → AreRooted db.executions
    → total_of st (total ids db) ≡ rows_in ids st db.executions
unfolding total
total-rows_in [] st db sound a h =
    total_of-gather star st db.counts
    ∙ sound.counted star st
    ∙ tally-rows_in [] st db.executions a h
total-rows_in (root ∷ ids) st db sound a h =
    total_of-gather root st db.counts
    ∙ sound.counted root st
    ∙ tally-rows_in (root ∷ ids) st db.executions a h
