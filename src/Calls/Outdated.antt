-- ===== src/Calls/Outdated.antt =====
-- A stored result of another version in typedhandler_job.go: `Done` does not write the version over
-- it.
use allino.Base.{ℕ, ◌≡◌, refl, ap, ◌∙◌, true, false, ◌&&◌, List, none, some, Option-cases, inl, inr}
use allino.Base.Bytes.{Bytes}
use allino.JobIds.{handler_version, has_major_or_minor_version_diff}
use allino.Jobs.Table.{ResultRow, Db, find_result, done}
use allino.Jobs.Outcome.{Reply, JobInfo, answer, info_of, stored_of_result}
use allino.Jobs.Finish.{result_row}
use allino.Calls.Options.{JobContext, job_meta, is_set}
use allino.Calls.Lookup.{
  Function, invalid_cache, missed, marshal_output_set, is_stale, unmarshalfn, upgrade_stale,
}
use allino.Calls.Call.{Ran, lookup_hit, settle, run_body, call_looked, call_uncached, call_keyed}
use allino.Calls.Cached.{
  IsKept, upserted_old, refreshed, answer_info, lookup_row, settled, keyed_cached, run_settled,
  unaborted,
}

module _ {U E : Type 0} (f : Function U E) where
  -- The stored result of the key has another major or minor version.
  abbrev pub IsOutdated : Bytes → Db → Type 0
  IsOutdated key db =
      (q : ResultRow) × (find_result key db.results ≡ some q)
      × (has_major_or_minor_version_diff q.version (handler_version f.version) ≡ true)

  -- Calls run at once, without a lock, and there is no `OnOutputUpgrade`.
  pub record IsPlainCache (c : JobContext) : Type 0 where
    pub kept : IsKept f
    pub synchronous : (c.fromcall && f.job.async) ≡ false
    pub unlocked : f.job.dedupe ≡ false
    pub upgrades : f.on_output_upgrade ≡ none

  IsOutdated-settle :
      (key injson : Bytes) (x : Ran U E)
      → IsKept f
      → is_set x.abort ≡ false
      → IsOutdated key x.db
      → IsOutdated key (settle f key injson x)
  unfolding settle result_row
  IsOutdated-settle key injson x k p (q, h, v) =
      elim (Option-cases (marshal_output_set f x.output x.err)) [
        | inl m ↦ (q, simp (k.caches, p, m) h, v)
        | inr ((o, e), m) ↦
            let n =
              result_row x.ended f.name
                (record (job_meta x.ended f.version f.job key done) { ttl = none }) key
                (some injson) o e in
            (
              refreshed n q,
              ap (find_result key) (settled f key injson x o e k p m)
                  ∙ upserted_old n q x.db.results h,
              v,
            )
      ]

  no_upgrade :
      (now : ℕ) (r : Reply) (db : Db)
      → f.on_output_upgrade ≡ none
      → upgrade_stale now f r db ≡ (missed invalid_cache, db)
  unfolding upgrade_stale
  no_upgrade now r db up = rw (upgrade_stale, up)

  outdated_reply :
      (now : ℕ) (r : Reply) (db : Db)
      → f.on_output_upgrade ≡ none
      → has_major_or_minor_version_diff r.info.meta.version (handler_version f.version) ≡ true
      → unmarshalfn now f r db ≡ (missed invalid_cache, db)
  unfolding unmarshalfn is_stale
  outdated_reply now r db up v = rw (unmarshalfn, v) (no_upgrade now r db up)

  stale_missed :
      (now : ℕ) (key : Bytes) (db : Db)
      → IsKept f
      → f.on_output_upgrade ≡ none
      → IsOutdated key db
      → lookup_hit f now key db ≡ (missed invalid_cache, db)
  stale_missed now key db k up (q, h, v) =
      let s = stored_of_result q in
      let info = info_of q.ttl s in
      lookup_row f now key q db k h
      ∙ outdated_reply now (answer key info s) db up (
          ap
            (λ (i : JobInfo).
              has_major_or_minor_version_diff i.meta.version (handler_version f.version))
            (answer_info key info s)
          ∙ v)

  plain_run :
      (now interval wait_timeout : ℕ) (c : JobContext) (key injson : Bytes) (body : Db → Ran U E)
      (firings : List (ℕ × Db)) (db : Db)
      → (c.fromcall && f.job.async) ≡ false
      → f.job.dedupe ≡ false
      → call_looked f now interval wait_timeout c key injson body firings (missed invalid_cache, db)
        ≡ run_body f interval c key injson (body db)
  unfolding call_looked call_uncached
  plain_run now interval wait_timeout c key injson body firings db s d = simp (s, d)

  -- For a function that is cached, not locked and not asynchronous and has no OnOutputUpgrade,
  -- where the stored result of a key without a TTL has another major or minor version, and
  -- still has it after the body, which does not abort: the call runs the body, and the stored
  -- result has another version afterwards too.
  pub call_keyed-IsOutdated :
      (now interval wait_timeout : ℕ) (c : JobContext) (key injson : Bytes) (body : Db → Ran U E)
      (firings : List (ℕ × Db)) (db : Db)
      → IsPlainCache c
      → is_set (body db).abort ≡ false
      → IsOutdated key db
      → IsOutdated key (body db).db
      → let r = call_keyed f now interval wait_timeout c key injson body firings db in
        (r.ran ≡ true) × IsOutdated key r.db
  call_keyed-IsOutdated now interval wait_timeout c key injson body firings db m p h k =
      rw
        (keyed_cached f now interval wait_timeout c key injson body firings db m.kept
          ∙ ap (call_looked f now interval wait_timeout c key injson body firings)
              (stale_missed now key db m.kept m.upgrades h)
          ∙ plain_run now interval wait_timeout c key injson body firings db m.synchronous
              m.unlocked
          ∙ run_settled f interval c key injson (body db) (unaborted f (body db) p))
        (refl, IsOutdated-settle key injson (body db) m.kept p k)
