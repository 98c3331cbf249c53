-- ===== src/Calls/Options.antt =====
-- The options of a function with a job mode, and what its jobs are stored with:
-- typedhandler_job_sql_init.go, typedhandler_job_context.go and requeueDelay.
use allino.Base.{
  ℕ, ◌+◌, ◌/◌, ◌==◌, Bool, true, false, not, ◌&&◌, [], Option, none, some, if◌then◌else◌,
}
use allino.Base.Bytes.{Bytes, bytes_eq, codes}
use allino.Base.Int.{ℤ}
use allino.JobIds.{encode_job_id, handler_version}
use allino.Jobs.Table.{Status, queued, leased, JobMeta}
use allino.Jobs.Queue.{second}
use allino.JobSet.{Jobset, new_jobset, add}

-- Durations are nanoseconds, 0 where they are not set.
pub record JobOption : Type 0 where
  pub async : Bool
  pub cache : Bool
  pub cache_err_on_hit : Bool
  pub dedupe : Bool
  pub priority : ℤ
  pub cache_expire : ℕ
  pub interval : ℕ

-- The switch over `opt.JobMode`; `none` is a mode that needs no SQL queue.
unfoldable pub apply_mode : Bytes → JobOption → Option JobOption
apply_mode mode o =
    if bytes_eq mode (codes "async")
    then some (record o { async = true })
    else if bytes_eq mode (codes "cache")
    then some (record o { cache = true })
    else if bytes_eq mode (codes "dedupe")
    then some (record o { dedupe = true })
    else if bytes_eq mode (codes "once")
    then some (record o { dedupe = true; cache = true; cache_err_on_hit = true })
    else if bytes_eq mode (codes "memoized")
    then some (record o { dedupe = true; cache = true })
    else if bytes_eq mode (codes "dispatch")
    then some (record o { async = true; cache = true })
    else none

-- What the server keeps for the SQL queue: the names in the job manager, and how often the
-- strategy, its workers and the reaping timer were started.
pub record JobServer : Type 0 where
  pub handlers : Jobset
  pub started : ℕ

abbrev pub new_server : JobServer
new_server = record { handlers = new_jobset; started = 0 }

unfoldable pub call_sql_init : Bytes → Bytes → JobOption → JobServer → JobOption × JobServer
unfolding apply_mode add
call_sql_init mode name o s = elim (apply_mode mode o) [
  | none ↦ (o, s)
  | some o' ↦ (
    o',
    record { handlers = add name s.handlers; started = if s.started == 0 then 1 else s.started },
  )
]

-- A call as the context sees it. `injson` is `none` where the input has no JSON.
pub record JobContext : Type 0 where
  pub fromcall : Bool
  pub injson : Option Bytes
  pub idempotency_key : Bytes
  pub request_id : Bytes

unfoldable pub job_marker : JobOption → Bytes → Bytes
job_marker o request_id = if not o.dedupe && not o.cache then request_id else []

-- `JobID`, of a call whose input has the JSON `injson`.
unfoldable pub job_id : (Bytes → Bytes) → Bytes → JobOption → JobContext → Bytes → Bytes
unfolding job_marker
job_id hash name o c injson =
    encode_job_id hash name c.idempotency_key injson (job_marker o c.request_id)

-- `JobMeta`; the root of a call's job is the job.
unfoldable pub job_meta : ℕ → Bytes → JobOption → Bytes → Status → JobMeta
job_meta now version o key status = record {
  version = handler_version version;
  status = status;
  parent_id = key;
  root_id = key;
  ttl = if o.cache_expire == 0 then none else some (now + o.cache_expire);
  priority = o.priority;
}

unfoldable pub enqueue_status : Bool → JobOption → Status
enqueue_status fromcall o = if fromcall && o.async then queued else leased

-- `r.memo.jobabortctrl` with `jobrequeuewait`, as a run leaves it.
pub data Abort : Type 0 where
  proceed requeue abort : Abort
  requeue_at : ℕ → Abort

abbrev pub is_set : Abort → Bool
is_set proceed = false
is_set _ = true

abbrev pub wants_requeue : Abort → Bool
wants_requeue requeue = true
wants_requeue (requeue_at _) = true
wants_requeue _ = false

-- `requeueDelay`: seconds, cut off, of the configured interval.
unfoldable pub requeue_delay : ℕ → Abort → ℕ
requeue_delay interval (requeue_at wait) = wait
requeue_delay interval _ = interval / second
