-- ===== src/Jobs/Finish.antt =====
-- The operations of `callSQLStrategy` that store a job's result.
use allino.Base.{ℕ, List, [], ◌∷◌, Option, none, some, if◌then◌else◌}
use allino.Base.Bytes.{Bytes, bytes_eq}
use allino.Base.Int.{ℤ}
use allino.Jobs.Table.{
  Status, done, error, JobMeta, Row, ResultRow, Db, update_rows, insert_row, find_row,
}
use allino.Jobs.Queue.{has_key}

-- `statusDone`, or `statusError` where there is an error.
abbrev pub outcome : Option Bytes → Status
outcome none = done
outcome (some _) = error

-- `INSERT INTO executions_results … ON CONFLICT(key) DO UPDATE SET …`.
unfoldable pub upsert_result : ResultRow → List ResultRow → List ResultRow
upsert_result n [] = n ∷ []
upsert_result n (r ∷ rs) =
    if bytes_eq r.key n.key
    then record r { output = n.output; err = n.err; status = n.status; updated_at = n.updated_at }
      ∷ rs
    else r ∷ upsert_result n rs

unfoldable pub result_row :
    ℕ → Bytes → JobMeta → Bytes → Option Bytes → Option Bytes → Option Bytes → ResultRow
result_row now handler meta key injson outjson errjson = record {
  key = key;
  handler = handler;
  version = meta.version;
  status = outcome errjson;
  parent_id = meta.parent_id;
  root_id = meta.root_id;
  ttl = meta.ttl;
  input = injson;
  output = outjson;
  err = errjson;
  created_at = now;
  updated_at = now;
}

-- The transaction of `doneAsync`.
unfoldable pub done_async :
    ℕ → Bytes → JobMeta → Bytes → Option Bytes → Option Bytes → Option Bytes → Db → Db
done_async now handler meta key injson outjson errjson db = elim meta.ttl [
  | some t ↦
      update_rows (has_key key)
        (λ r. record r {
          status = outcome errjson;
          ttl = some t;
          output = outjson;
          err = errjson;
          updated_at = now;
        })
        db
  | none ↦
      let db' =
        update_rows (has_key key)
          (λ r. record r { status = outcome errjson; ttl = none; updated_at = now }) db in
      record db' {
        results =
            upsert_result (result_row now handler meta key injson outjson errjson) db'.results;
      }
]

-- An `INSERT INTO executions` that may leave `priority` and `run_at` out. Both are NOT NULL and have
-- no default: where one is missing the statement fails (`none`), before any conflict on the key.
unfoldable pub insert_checked : Option ℤ → Option ℕ → (ℤ → ℕ → Row) → (Row → Row) → Db → Option Db
insert_checked none run_at row set db = none
insert_checked (some priority) none row set db = none
insert_checked (some priority) (some run_at) row set db =
    let r = row priority run_at in
    elim (find_row r.key db.executions) [
      | none ↦ some (insert_row r db)
      | some _ ↦ some (update_rows (has_key r.key) set db)
    ]

-- `Done`; `none` is the error of the statement.
unfoldable pub store_done :
    ℕ → Bytes → JobMeta → Bytes → Option Bytes → Option Bytes → Option Bytes → Db → Option Db
store_done now handler meta key injson outjson errjson db = elim meta.ttl [
  | some t ↦
      insert_checked none none
        (λ priority run_at. record {
          id = 0;
          key = key;
          handler = handler;
          version = meta.version;
          status = outcome errjson;
          parent_id = meta.parent_id;
          root_id = meta.root_id;
          input = injson;
          output = outjson;
          err = errjson;
          retry_count = none;
          priority = priority;
          ttl = some t;
          run_at = run_at;
          created_at = now;
          updated_at = now;
          leased_until = none;
        })
        (λ r. record r {
          output = outjson;
          err = errjson;
          status = outcome errjson;
          updated_at = now;
        })
        db
  | none ↦ some (record db {
    results = upsert_result (result_row now handler meta key injson outjson errjson) db.results;
  })
]
