-- ===== src/Calls/Lookup.antt =====
-- Results as JSON and back, and `unmarshalfnMake` of typedhandler_job.go: what a call makes of the
-- reply of `Hit`, `Wait` or `Result`. JSON is a field of the function, `none` is its error.
use allino.Base.{ℕ, Bool, ◌||◌, Option, none, some, if◌then◌else◌}
use allino.Base.Bytes.{Bytes}
use allino.JobIds.{handler_version, has_major_or_minor_version_diff}
use allino.Jobs.Table.{JobMeta, Db, before}
use allino.Jobs.Outcome.{SysErr, job_not_found, Reply}
use allino.Jobs.Finish.{store_done}
use allino.Calls.Options.{JobOption}

-- The answers of `OnOutputUpgrade`: not ok, an output of another type, an output with an error.
pub data Upgrade (U E : Type 0) : Type 0 where
  declined mismatched : Upgrade U E
  upgraded : U → Option E → Upgrade U E

-- A registered function with outputs `U` and errors `E`.
pub record Function (U E : Type 0) : Type 0 where
  pub name : Bytes
  pub version : Bytes
  pub job : JobOption
  pub on_output_upgrade : Option (Bytes → ℕ → Bytes → Upgrade U E)
  pub zero_output : U
  pub encode_output : U → Option Bytes
  pub decode_output : Bytes → Option U
  pub encode_error : E → Option Bytes
  pub decode_error : Bytes → Option E

-- The errors of a read: those of the queue, and `FatalInvalidCacheError`,
-- `ErrJobResultDecodeFailed`, `ErrJobErrorDecodeFailed`.
pub data LookupError : Type 0 where
  strategy : SysErr → LookupError
  invalid_cache result_decode_failed error_decode_failed : LookupError

-- The errors that a caller gets: the function's own, `ErrJobDuplicated`, a `JobPendingError` with
-- whether the job was accepted, `FatalBackendError`, `FatalTransformFailed`,
-- `ErrJobInputEncodeFailed`.
pub data CallError (E : Type 0) : Type 0 where
  own : E → CallError E
  duplicated transform_failed input_encode_failed : CallError E
  pending : Bytes → Bool → CallError E
  backend : LookupError → CallError E

pub data Lookup (U E : Type 0) : Type 0 where
  missed : LookupError → Lookup U E
  found : U → Option (CallError E) → Lookup U E

abbrev pub own_error : {E : Type 0} → Option E → Option (CallError E)
own_error none = none
own_error (some e) = some (own e)

module _ {U E : Type 0} where
  -- An error wins over the output.
  unfoldable pub marshal_output_set :
      Function U E → U → Option E → Option (Option Bytes × Option Bytes)
  marshal_output_set f output (some e) = elim (f.encode_error e) [
    | none ↦ none
    | some errjson ↦ some (none, some errjson)
  ]
  marshal_output_set f output none = elim (f.encode_output output) [
    | none ↦ none
    | some outjson ↦ some (some outjson, none)
  ]

  -- The output and error documents of a reply without a system error.
  unfoldable pub unmarshal_documents : Function U E → Option Bytes → Option Bytes → Lookup U E
  unmarshal_documents f (some outjson) errjson = elim (f.decode_output outjson) [
    | none ↦ missed result_decode_failed
    | some output ↦ found output none
  ]
  unmarshal_documents f none (some errjson) = elim (f.decode_error errjson) [
    | none ↦ missed error_decode_failed
    | some e ↦ found f.zero_output (some (own e))
  ]
  unmarshal_documents f none none = missed error_decode_failed

  unfoldable pub unmarshal_output_set : Function U E → Reply → Lookup U E
  unfolding unmarshal_documents
  unmarshal_output_set f r = elim r.syserr [
    | some e ↦ missed (strategy e)
    | none ↦ unmarshal_documents f r.output r.err
  ]

  -- The cached result is of another version, or has outlived its TTL.
  unfoldable pub is_stale : ℕ → Function U E → Reply → Bool
  is_stale now f r =
      has_major_or_minor_version_diff r.info.meta.version (handler_version f.version)
      || before r.info.meta.ttl now

  -- An upgraded output replaces the stored one. `Done` may fail.
  unfoldable pub store_upgraded : ℕ → Function U E → Reply → U → Option E → Db → Lookup U E × Db
  unfolding marshal_output_set
  store_upgraded now f r output e db = elim (marshal_output_set f output e) [
    | none ↦ (found f.zero_output (some transform_failed), db)
    | some (outjson, errjson) ↦
        let meta : JobMeta = record {
          version = handler_version f.version;
          status = r.info.meta.status;
          parent_id = r.info.meta.parent_id;
          root_id = r.info.meta.root_id;
          ttl = r.info.meta.ttl;
          priority = r.info.meta.priority;
        } in
        elim (store_done now f.name meta r.info.job_id none outjson errjson db) [
          | none ↦ (found f.zero_output (some transform_failed), db)
          | some db' ↦ (found output (own_error e), db')
        ]
  ]

  -- The path of a stale result.
  unfoldable pub upgrade_stale : ℕ → Function U E → Reply → Db → Lookup U E × Db
  unfolding store_upgraded
  upgrade_stale now f r db = elim f.on_output_upgrade [
    | none ↦ (missed invalid_cache, db)
    | some on_upgrade ↦ elim r.output [
      | none ↦ (missed invalid_cache, db)
      | some outjson ↦ elim r.err [
        | some _ ↦ (missed invalid_cache, db)
        | none ↦ elim (on_upgrade r.info.meta.version r.info.updated_at outjson) [
          | declined ↦ (missed (strategy job_not_found), db)
          | mismatched ↦ (found f.zero_output (some transform_failed), db)
          | upgraded output e ↦ store_upgraded now f r output e db
        ]
      ]
    ]
  ]

  -- With `CacheErrOnHit` a result that is there is an error.
  unfoldable pub on_hit : Function U E → Lookup U E → Lookup U E
  on_hit f (missed e) = missed e
  on_hit f (found output e) =
      if f.job.cache_err_on_hit then found f.zero_output (some duplicated) else found output e

  unfoldable pub unmarshalfn : ℕ → Function U E → Reply → Db → Lookup U E × Db
  unfolding is_stale upgrade_stale on_hit unmarshal_output_set
  unmarshalfn now f r db =
      if is_stale now f r
      then upgrade_stale now f r db
      else (on_hit f (unmarshal_output_set f r), db)
