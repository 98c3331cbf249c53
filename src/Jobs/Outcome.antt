-- ===== src/Jobs/Outcome.antt =====
-- The operations of `callSQLStrategy` that read a job's result back.
use allino.Base.{
  ℕ, ◌+◌, Bool, ◌&&◌, ◌||◌, not, List, [], ◌∷◌, Option, none, some, if◌then◌else◌, ltb,
}
use allino.Base.Bytes.{Bytes}
use allino.Base.Int.{pos}
use allino.Jobs.Table.{
  Status, queued, leased, done, error, status_eq, JobMeta, Row, ResultRow, Db, find_row,
  find_result, before,
}

pub record JobInfo : Type 0 where
  pub job_id : Bytes
  pub handler : Bytes
  pub meta : JobMeta
  pub created_at : ℕ
  pub updated_at : ℕ
  pub leased_until : Option ℕ
  pub retry_count : Option ℕ

pub data SysErr : Type 0 where
  job_not_found job_expired : SysErr
  job_pending : Bytes → SysErr

-- What `Result`, `Hit` and `Wait` return.
pub record Reply : Type 0 where
  pub info : JobInfo
  pub output : Option Bytes
  pub err : Option Bytes
  pub syserr : Option SysErr

abbrev pub zero_info : JobInfo
zero_info = record {
  job_id = [];
  handler = [];
  meta = record {
    version = [];
    status = queued;
    parent_id = [];
    root_id = [];
    ttl = none;
    priority = pos 0;
  };
  created_at = 0;
  updated_at = 0;
  leased_until = none;
  retry_count = none;
}

-- The columns that the `SELECT`s of `Result` and `Hit` share; `Hit` reads the TTL too.
pub record Stored : Type 0 where
  pub key : Bytes
  pub handler : Bytes
  pub version : Bytes
  pub status : Status
  pub parent_id : Bytes
  pub root_id : Bytes
  pub ttl : Option ℕ
  pub created_at : ℕ
  pub updated_at : ℕ
  pub output : Option Bytes
  pub err : Option Bytes

abbrev pub stored_of_row : Row → Stored
stored_of_row r = record {
  key = r.key;
  handler = r.handler;
  version = r.version;
  status = r.status;
  parent_id = r.parent_id;
  root_id = r.root_id;
  ttl = r.ttl;
  created_at = r.created_at;
  updated_at = r.updated_at;
  output = r.output;
  err = r.err;
}

abbrev pub stored_row : Option Row → Option Stored
stored_row none = none
stored_row (some r) = some (stored_of_row r)

abbrev pub stored_of_result : ResultRow → Stored
stored_of_result r = record {
  key = r.key;
  handler = r.handler;
  version = r.version;
  status = r.status;
  parent_id = r.parent_id;
  root_id = r.root_id;
  ttl = r.ttl;
  created_at = r.created_at;
  updated_at = r.updated_at;
  output = r.output;
  err = r.err;
}

abbrev pub stored_result : Option ResultRow → Option Stored
stored_result none = none
stored_result (some r) = some (stored_of_result r)

abbrev pub fetch : Bytes → Bool → Db → Option Stored
fetch key volatile db =
    if volatile
    then stored_row (find_row key db.executions)
    else stored_result (find_result key db.results)

abbrev pub info_of : Option ℕ → Stored → JobInfo
info_of ttl s = record {
  job_id = s.key;
  handler = s.handler;
  meta = record {
    version = s.version;
    status = s.status;
    parent_id = s.parent_id;
    root_id = s.root_id;
    ttl = ttl;
    priority = pos 0;
  };
  created_at = s.created_at;
  updated_at = s.updated_at;
  leased_until = none;
  retry_count = none;
}

abbrev pub finished : Status → Bool
finished st = status_eq st done || status_eq st error

-- The tail that `Result` and `Hit` share.
unfoldable pub answer : Bytes → JobInfo → Stored → Reply
answer key info s =
    if not (status_eq info.meta.status done) && not (status_eq info.meta.status error)
    then record { info = info; output = none; err = none; syserr = some (job_pending key) }
    else record { info = info; output = s.output; err = s.err; syserr = none }

abbrev pub no_job : Reply
no_job = record { info = zero_info; output = none; err = none; syserr = some job_not_found }

unfoldable pub result : Bytes → Bool → Db → Reply
unfolding answer
result key volatile db = elim (fetch key volatile db) [
  | none ↦ no_job
  | some s ↦ answer key (info_of none s) s
]

unfoldable pub hit : Bytes → Bool → Db → Reply
unfolding answer
hit key volatile db = elim (fetch key volatile db) [
  | none ↦ no_job
  | some s ↦ answer key (info_of s.ttl s) s
]

abbrev pub expired_job : Reply
expired_job = record { info = zero_info; output = none; err = none; syserr = some job_expired }

-- One firing of the callback that `Wait` puts on the time wheel: `none` asks for another. `start`
-- is the time of the call of `Wait`, `later` the clock of the callback.
unfoldable pub poll : ℕ → ℕ → ℕ → Reply → Option Reply
poll start wait_timeout later r = elim r.syserr [
  | some _ ↦ none
  | none ↦
      if finished r.info.meta.status
      then some r
      else if status_eq r.info.meta.status leased && before r.info.leased_until later
      then some expired_job
      else if ltb (start + wait_timeout) later
      then some expired_job
      else none
]

-- `Wait`, over the clock and the database at each firing; `none` waits still.
unfoldable pub wait : ℕ → ℕ → Bytes → Bool → List (ℕ × Db) → Option Reply
wait start wait_timeout key volatile [] = none
wait start wait_timeout key volatile ((later, db) ∷ rest) =
    elim (poll start wait_timeout later (result key volatile db)) [
      | some r ↦ some r
      | none ↦ wait start wait_timeout key volatile rest
    ]
