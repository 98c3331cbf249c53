-- ===== src/Jobs/Queue.antt =====
-- The operations of `callSQLStrategy` that move a job through the queue. The clock is the argument
-- `now`; a failing connection is not modelled, and the mutex and the transactions make each call
-- one step.
use allino.Base.{
  ℕ, ◌+◌, ◌*◌, ◌==◌, Bool, true, false, ◌&&◌, ◌||◌, List, [], ◌∷◌, Option, none, some,
  if◌then◌else◌, ltb, leb,
}
use allino.Base.Bytes.{Bytes, bytes_eq, codes}
use allino.Base.Int.{ℤ, pos, sub_ℕ, ltb_ℤ}
use allino.Jobs.Table.{
  queued, leased, done, error, status_eq, JobMeta, Row, Db, update_rows, delete_rows, insert_row,
  find_row, before,
}

-- The row that `Enqueue` inserts. `delay_sec` is an argument of the call that no statement uses.
unfoldable pub new_row : ℕ → Bytes → JobMeta → Bytes → Option Bytes → Row
new_row now handler meta key injson = record {
  id = 0;
  key = key;
  handler = handler;
  version = meta.version;
  status = meta.status;
  parent_id = meta.parent_id;
  root_id = meta.root_id;
  input = injson;
  output = none;
  err = none;
  retry_count = none;
  priority = meta.priority;
  ttl = meta.ttl;
  run_at = now;
  created_at = now;
  updated_at = now;
  leased_until = none;
}

-- The columns that `ON CONFLICT(key) DO UPDATE SET` overwrites.
unfoldable pub overwrite : ℕ → Bytes → JobMeta → Option Bytes → Row → Row
overwrite now handler meta injson r = record r {
  handler = handler;
  version = meta.version;
  status = meta.status;
  parent_id = meta.parent_id;
  root_id = meta.root_id;
  priority = meta.priority;
  ttl = meta.ttl;
  run_at = now;
  input = injson;
  updated_at = now;
}

-- The upsert's `WHERE`: the job is done and its time to live is over.
abbrev pub reusable : ℕ → Row → Bool
reusable now r = status_eq r.status done && before r.ttl now

abbrev pub has_key : Bytes → Row → Bool
has_key key r = bytes_eq r.key key

-- The answer is `RowsAffected() > 0`.
unfoldable pub enqueue : ℕ → Bytes → JobMeta → Bytes → Option Bytes → ℕ → Db → Bool × Db
enqueue now handler meta key injson delay_sec db = elim (find_row key db.executions) [
  | none ↦ (true, insert_row (new_row now handler meta key injson) db)
  | some r ↦
      if reusable now r
      then (true, update_rows (has_key key) (overwrite now handler meta injson) db)
      else (false, db)
]

abbrev pub contains : List Bytes → Bytes → Bool
contains [] h = false
contains (x ∷ xs) h = bytes_eq x h || contains xs h

-- `WHERE status = 0 AND run_at <= now AND handler IN (…)`.
unfoldable pub eligible : ℕ → List Bytes → Row → Bool
eligible now handlers r =
    status_eq r.status queued && leb r.run_at now && contains handlers r.handler

-- `ORDER BY priority DESC, created_at ASC, id ASC`: the first row is served before the second.
unfoldable pub precedes : Row → Row → Bool
precedes a b =
    if ltb_ℤ b.priority a.priority
    then true
    else if ltb_ℤ a.priority b.priority
    then false
    else if ltb a.created_at b.created_at
    then true
    else if ltb b.created_at a.created_at
    then false
    else ltb a.id b.id

abbrev pub better : Row → Option Row → Row
better r none = r
better r (some s) = if precedes s r then s else r

-- The `SELECT … LIMIT 1` of `Dequeue`.
unfoldable pub select_next : ℕ → List Bytes → List Row → Option Row
select_next now handlers [] = none
select_next now handlers (r ∷ rs) =
    let rest = select_next now handlers rs in
    if eligible now handlers r then some (better r rest) else rest

-- `sqlJobTask`; `Meta` is scanned from four columns, its other fields stay zero.
pub record JobTask : Type 0 where
  pub key : Bytes
  pub handler : Bytes
  pub meta : JobMeta
  pub input : Option Bytes

abbrev pub task_of : Row → JobTask
task_of r = record {
  key = r.key;
  handler = r.handler;
  meta = record {
    version = r.version;
    status = leased;
    parent_id = r.parent_id;
    root_id = r.root_id;
    ttl = none;
    priority = pos 0;
  };
  input = r.input;
}

-- What `Dequeue` feeds to the throughput average: the distance to the id dequeued before.
abbrev pub id_gap : Option ℕ → ℕ → ℤ
id_gap none id = pos 1
id_gap (some last) id = sub_ℕ id last

unfoldable pub lease : ℕ → ℕ → Row → Row
lease now lease_dur r = record r {
  status = leased;
  leased_until = some (now + lease_dur);
  updated_at = now;
}

-- `none` is `ErrJobNotFound`.
unfoldable pub dequeue : ℕ → List Bytes → ℕ → Db → Option (JobTask × ℤ × Db)
dequeue now handlers lease_dur db = elim (select_next now handlers db.executions) [
  | none ↦ none
  | some r ↦ some (
    task_of r,
    id_gap db.last_dequeued r.id,
    record (update_rows (λ s. s.id == r.id) (lease now lease_dur) db) { last_dequeued = some r.id },
  )
]

abbrev pub at_least : Option ℕ → ℕ → Bool
at_least none n = false
at_least (some m) n = leb n m

abbrev pub count_or_zero : Option ℕ → ℕ
count_or_zero none = 0
count_or_zero (some n) = n

abbrev pub expired : ℕ → Row → Bool
expired now r = status_eq r.status leased && before r.leased_until now

abbrev pub spent : ℕ → ℕ → Row → Bool
spent now maxretry r = expired now r && at_least r.retry_count maxretry

-- The three statements of `Reaping`, in their order.
unfoldable pub fail_row : ℕ → Row → Row
fail_row now r = record r {
  status = error;
  err = some (codes "{\"message\": \"max retries exceeded during reaping\"}");
  updated_at = now;
}

unfoldable pub release_row : ℕ → Row → Row
release_row now r = record r {
  status = queued;
  leased_until = none;
  updated_at = now;
  retry_count = some (count_or_zero r.retry_count + 1);
}

abbrev pub outlived : ℕ → Row → Bool
outlived now r = (status_eq r.status done || status_eq r.status error) && before r.ttl now

unfoldable pub reaping : ℕ → ℕ → Db → Db
reaping now maxretry db = delete_rows (outlived now) (
    update_rows (expired now) (release_row now)
      (update_rows (spent now maxretry) (fail_row now) db))

unfoldable pub lease_update : ℕ → Bytes → ℕ → Db → Db
lease_update now key lease_dur =
    update_rows (has_key key)
      (λ r. record r { leased_until = some (now + lease_dur); updated_at = now })

unfoldable pub free : Bytes → Db → Db
free key = delete_rows (has_key key)

-- Nanoseconds in a second.
abbrev pub second : ℕ
second = 1_000_000_000

unfoldable pub requeue : ℕ → Bytes → ℕ → Db → Db
requeue now key delay_sec = update_rows (has_key key) (λ r. record r {
  status = queued;
  run_at = now + delay_sec * second;
  leased_until = none;
  updated_at = now;
  retry_count = some (count_or_zero r.retry_count + 1);
})
