-- ===== src/Jobs/Steps.antt =====
-- The calls that change the queue of typedhandler_job_sql.go, as one step function.
use allino.Base.{ℕ, List, [], ◌∷◌, Option, none, some}
use allino.Base.Bytes.{Bytes}
use allino.Jobs.Table.{JobMeta, Db}
use allino.Jobs.Queue.{enqueue, dequeue, reaping, lease_update, free, requeue}
use allino.Jobs.Finish.{done_async, store_done}

-- A call without its time.
pub data Call : Type 0 where
  enqueues : Bytes → JobMeta → Bytes → Option Bytes → ℕ → Call
  dequeues : List Bytes → ℕ → Call
  reaps : ℕ → Call
  renews : Bytes → ℕ → Call
  frees : Bytes → Call
  requeues : Bytes → ℕ → Call
  finishes : Bytes → JobMeta → Bytes → Option Bytes → Option Bytes → Option Bytes → Call
  stores : Bytes → JobMeta → Bytes → Option Bytes → Option Bytes → Option Bytes → Call

-- `Dequeue` of an empty queue and a statement that fails change nothing.
unfoldable pub step : ℕ → Call → Db → Db
step now (enqueues handler meta key injson delay) db =
    (enqueue now handler meta key injson delay db).1
step now (dequeues handlers lease_dur) db = elim (dequeue now handlers lease_dur db) [
  | none ↦ db
  | some (_, _, db') ↦ db'
]
step now (reaps maxretry) db = reaping now maxretry db
step now (renews key lease_dur) db = lease_update now key lease_dur db
step now (frees key) db = free key db
step now (requeues key delay) db = requeue now key delay db
step now (finishes handler meta key injson outjson errjson) db =
    done_async now handler meta key injson outjson errjson db
step now (stores handler meta key injson outjson errjson) db =
    elim (store_done now handler meta key injson outjson errjson db) [ none ↦ db | some db' ↦ db' ]

unfoldable pub run : List (ℕ × Call) → Db → Db
run [] db = db
run ((now, c) ∷ cs) db = run cs (step now c db)

-- The tables as `Init` creates them.
unfoldable pub empty_db : Db
empty_db = record { executions = []; results = []; counts = []; next_id = 1; last_dequeued = none }
