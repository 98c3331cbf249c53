-- ===== src/Calls/Worker.antt =====
-- The workers of typedhandler_job_manager.go: how a job is taken, run and put away, and how
-- `invokeFunctionJSON` of typedhandler_job.go gets a job's input. The average of the throughput is
-- floating point arithmetic: `stretch` is its product with an interval.
use allino.Base.{
  ℕ, ◌+◌, ◌-◌, ◌==◌, Bool, true, false, not, ◌&&◌, ◌||◌, List, [], ◌∷◌, Option, none, some,
  if◌then◌else◌, ltb,
}
use allino.Base.Bytes.{Bytes, bytes_eq}
use allino.JobIds.{handler_version, has_major_or_minor_version_diff}
use allino.JobSet.{Jobset, diff, add, remove}
use allino.Jobs.Table.{JobMeta, Db}
use allino.Jobs.Queue.{JobTask, dequeue, requeue, free}
use allino.Jobs.Finish.{done_async}
use allino.Calls.Options.{JobOption, Abort, is_set, requeue_delay}

-- `jobManager`, with the `lastRun` of the handlers that ran.
pub record Manager : Type 0 where
  pub handlers : Jobset
  pub locked : Jobset
  pub resource_locked : Jobset
  pub active : ℕ
  pub attempt : ℕ
  pub last_run : List (Bytes × ℕ)

unfoldable pub last_run_of : Bytes → List (Bytes × ℕ) → Option ℕ
last_run_of h [] = none
last_run_of h ((k, t) ∷ rest) = if bytes_eq k h then some t else last_run_of h rest

-- A job without a root is its own root.
unfoldable pub rooted : JobTask → JobTask
rooted t = record t {
  meta = record {
    version = t.meta.version;
    status = t.meta.status;
    parent_id = t.key;
    root_id = if bytes_eq t.meta.root_id [] then t.key else t.meta.root_id;
    ttl = t.meta.ttl;
    priority = t.meta.priority;
  };
}

-- One turn of the loop up to `Do`: `options` is `handlerOptMap`.
unfoldable pub take_job :
    (Bytes → JobOption) → ℕ → ℕ → Manager → Db → Option (JobTask × Db) × Manager
unfolding rooted
take_job options now lease_dur m db =
    elim (dequeue now (diff m.handlers (m.locked ∷ m.resource_locked ∷ [])) lease_dur db) [
      | none ↦ (none, record m { attempt = m.attempt + 1 })
      | some (task, _, db') ↦ (
        some (rooted task, db'),
        record m {
          locked =
              if (options task.handler).interval == 0 then m.locked else add task.handler m.locked;
          attempt = 0;
        },
      )
    ]

-- How long the job has to wait for the last run of its handler; `none` runs at once.
unfoldable pub wait_dur : (ℕ → ℕ) → JobOption → Option ℕ → ℕ → Option ℕ
wait_dur stretch o none now = none
wait_dur stretch o (some last) now =
    let due = last + stretch o.interval in
    if not (o.interval == 0) && ltb now due then some (due - now) else none

-- What `invoker` gives back, with the `jobabortctrl` that the function leaves. `none` is a system
-- error.
pub record Invoked : Type 0 where
  pub documents : Option (Option Bytes × Option Bytes)
  pub abort : Abort
  pub ended : ℕ

-- `jtask.Meta().TTL`, which a job taken from the queue does not have.
unfoldable pub with_ttl : ℕ → JobOption → JobMeta → JobMeta
with_ttl now o meta =
    if o.cache_expire == 0 then meta else record meta { ttl = some (now + o.cache_expire) }

-- The four ends of a job: failed, aborted, cached, and completed, which is put away like a failure.
unfoldable pub put_away : ℕ → JobOption → JobTask → Invoked → Db → Db
unfolding with_ttl
put_away interval o task x db = elim x.documents [
  | none ↦ free task.key db
  | some (outjson, errjson) ↦
      if is_set x.abort
      then requeue x.ended task.key (requeue_delay interval x.abort) db
      else if o.cache
      then done_async x.ended task.handler (with_ttl x.ended o task.meta) task.key task.input
          outjson errjson db
      else free task.key db
]

abbrev pub begin_job : Manager → Manager
begin_job m = record m { active = m.active + 1 }

-- After the job: the handler is unlocked and its last run is the time `began` of the call.
unfoldable pub end_job : ℕ → JobTask → Manager → Manager
end_job began task m = record m {
  locked = remove task.handler m.locked;
  active = m.active - 1;
  last_run = (task.handler, began) ∷ m.last_run;
}

-- Whether `tryFinish` tells a waiting caller that all jobs are done.
unfoldable pub try_finish : Manager → Bool
try_finish m = m.active == 0 && not (ltb m.attempt 5)

-- The input of a job.
pub data JobInput (T : Type 0) : Type 0 where
  input : T → JobInput T
  decode_failed panics : JobInput T

module _ {T : Type 0} (zero_input : T) (decode : Bytes → Option T) where
  unfoldable pub decoded_input : Bytes → JobInput T
  decoded_input injson = elim (decode injson) [ none ↦ decode_failed | some t ↦ input t ]

  -- The answer of `OnInputUpgrade`: whether it upgraded, and the input where its type fits.
  unfoldable pub upgraded_input : Bytes → Bool × Option T → JobInput T
  unfolding decoded_input
  upgraded_input injson (false, _) = decoded_input injson
  upgraded_input injson (true, some t) = input t
  upgraded_input injson (true, none) = input zero_input

  -- The call of a nil `OnInputUpgrade` panics.
  unfoldable pub job_input :
      Bytes → Option (Bytes → Bytes → Bool × Option T) → Bytes → Bytes → JobInput T
  unfolding decoded_input upgraded_input
  job_input version on_input_upgrade stored_version injson =
      if has_major_or_minor_version_diff stored_version (handler_version version)
      then elim on_input_upgrade [
        | none ↦ panics
        | some on_upgrade ↦ upgraded_input injson (on_upgrade stored_version injson)
      ]
      else decoded_input injson

-- `strings.Index(k, "@")`, with the part before it where there is one at a positive place.
unfoldable pub before_at : Bytes → Option Bytes
before_at [] = none
before_at (c ∷ s) =
    let rest = before_at s in
    if c == 64 then some [] else elim rest [ none ↦ none | some p ↦ some (c ∷ p) ]

abbrev pub is_name : Bytes → Option Bytes → Bool
is_name h none = false
is_name h (some []) = false
is_name h (some (c ∷ p)) = bytes_eq (c ∷ p) h

unfoldable pub find_versioned : Bytes → List Bytes → Option Bytes
unfolding before_at
find_versioned h [] = none
find_versioned h (k ∷ ks) = if is_name h (before_at k) then some k else find_versioned h ks

unfoldable pub any_name : Bytes → List Bytes → Bool
any_name h [] = false
any_name h (k ∷ ks) = bytes_eq k h || any_name h ks

-- `find_handler` over the names of `handlerOptMap`, in the order that a range gives.
unfoldable pub find_handler : List Bytes → Bytes → Option Bytes
unfolding any_name find_versioned
find_handler names h = if any_name h names then some h else find_versioned h names
