-- ===== src/Calls/Cached.antt =====
-- Calls of a function with `Cache` in typedhandler_job.go whose results have no TTL: what a later
-- call reads of an earlier one.
use allino.Base.{
  ◌==◌, arith, ℕ, ◌≡◌, refl, ap, ◌∙◌, true, false, not, ◌&&◌, List, [], ◌∷◌, Option, none, some,
  if◌then◌else◌, Bool-cases, inl, inr,
}
use allino.Base.Bytes.{Bytes, bytes_eq, bytes_eq_refl}
use allino.JobIds.{handler_version}
use allino.JobIds.Versions.{diff_refl}
use allino.Jobs.Table.{JobMeta, status_eq, error, ResultRow, Db, find_result, done}
use allino.Jobs.Outcome.{hit, JobInfo, Stored, answer, info_of, stored_of_result}
use allino.Jobs.Finish.{outcome, upsert_result, result_row, store_done}
use allino.Calls.Options.{
  JobContext, job_meta, wants_requeue, Abort, proceed, requeue, abort, requeue_at, is_set,
}
use allino.Calls.Lookup.{
  Function, CallError, own, own_error, duplicated, Lookup, found, marshal_output_set,
  unmarshal_documents, unmarshal_output_set, is_stale, on_hit, unmarshalfn,
}
use allino.Calls.Call.{Ran, lookup_hit, settle, run_body, call_looked, call_keyed}

pub upserted_new :
    (n : ResultRow) (rs : List ResultRow)
    → find_result n.key rs ≡ none
    → find_result n.key (upsert_result n rs) ≡ some n
unfolding find_result upsert_result
upserted_new n [] h = rw (bytes_eq_refl n.key)
upserted_new n (r ∷ rs) h = elim (Bool-cases (bytes_eq r.key n.key)) [
  | inl e ↦ cc
  | inr e ↦ rw e (rw e (upserted_new n rs (ground arith)))
]

-- What stays of an earlier row: all but the documents, the status and the time.
abbrev pub refreshed : ResultRow → ResultRow → ResultRow
refreshed n q = record q {
  output = n.output;
  err = n.err;
  status = n.status;
  updated_at = n.updated_at;
}

first_result :
    (key : Bytes) (r q : ResultRow) (rs : List ResultRow)
    → find_result key (r ∷ rs) ≡ some q
    → bytes_eq r.key key ≡ true
    → r ≡ q
unfolding find_result
first_result key r q rs h e = ground arith

pub upserted_old :
    (n q : ResultRow) (rs : List ResultRow)
    → find_result n.key rs ≡ some q
    → find_result n.key (upsert_result n rs) ≡ some (refreshed n q)
unfolding find_result upsert_result
upserted_old n q [] h = cc
upserted_old n q (r ∷ rs) h = elim (Bool-cases (bytes_eq r.key n.key)) [
  | inl e ↦ rw e (rw e (ap (λ t. some (refreshed n t)) (first_result n.key r q rs h e)))
  | inr e ↦ rw e (rw e (upserted_old n q rs (ground arith)))
]

hit_row :
    (key : Bytes) (q : ResultRow) (db : Db)
    → find_result key db.results ≡ some q
    → hit key false db ≡ answer key (info_of q.ttl (stored_of_result q)) (stored_of_result q)
unfolding hit answer
hit_row key q db h = rw (hit, h)

pub answer_info : (key : Bytes) (info : JobInfo) (s : Stored) → (answer key info s).info ≡ info
unfolding answer
answer_info key info s =
    elim (Bool-cases
      (not (status_eq info.meta.status done) && not (status_eq info.meta.status error))) [
        | inl e ↦ rw (answer, e)
        | inr e ↦ rw (answer, e)
      ]

store_kept :
    (now : ℕ) (handler : Bytes) (meta : JobMeta) (key : Bytes) (injson o e : Option Bytes) (db : Db)
    → meta.ttl ≡ none
    → (db' : Db) × (store_done now handler meta key injson o e db ≡ some db')
      × (db'.results
          ≡ upsert_result
              (result_row now handler (record meta { ttl = none }) key injson o e)
              db.results)
unfolding store_done
store_kept now handler meta key injson o e db h = rw h (_, refl, refl)

module _ {U E : Type 0} (f : Function U E) where
  -- Results are cached and kept without a TTL.
  pub record IsKept : Type 0 where
    pub caches : f.job.cache ≡ true
    pub forever : f.job.cache_expire ≡ 0

  pub lookup_row :
      (later : ℕ) (key : Bytes) (q : ResultRow) (db : Db)
      → IsKept
      → find_result key db.results ≡ some q
      → lookup_hit f later key db
        ≡ unmarshalfn later f
            (answer key (info_of q.ttl (stored_of_result q)) (stored_of_result q))
            db
  lookup_row later key q db k h =
      ap (λ r. unmarshalfn later f r db)
        (ap (λ n. hit key (not (n == 0)) db) (k.forever) ∙ hit_row key q db h)

  no_ttl : (now : ℕ) (key : Bytes) → IsKept → (job_meta now f.version f.job key done).ttl ≡ none
  unfolding job_meta
  no_ttl now key k = rw (k.forever)

  pub settled :
      (key injson : Bytes) (x : Ran U E) (o e : Option Bytes)
      → IsKept
      → is_set x.abort ≡ false
      → marshal_output_set f x.output x.err ≡ some (o, e)
      → let n =
          result_row x.ended f.name
            (record (job_meta x.ended f.version f.job key done) { ttl = none })
            key
            (some injson)
            o
            e in
        (settle f key injson x).results ≡ upsert_result n x.db.results
  unfolding settle
  settled key injson x o e k p m =
      let (db', s, t) =
        store_kept x.ended f.name (job_meta x.ended f.version f.job key done) key (some injson) o e
          x.db (no_ttl x.ended key k) in
      simp (k.caches, p, m, s, t)

  -- What a run gives its caller, and what a later read of it has to give.
  abbrev pub given : U → Option E → Lookup U E
  given output none = found output none
  given output (some e) = found f.zero_output (some (own e))

  -- JSON takes the run's error, or its output, and gives it back.
  abbrev pub IsReadable : U → Option E → Type 0
  IsReadable output none =
      (doc : Bytes) × (f.encode_output output ≡ some doc) × (f.decode_output doc ≡ some output)
  IsReadable output (some e) =
      (doc : Bytes) × (f.encode_error e ≡ some doc) × (f.decode_error doc ≡ some e)

  pub readable :
      (output : U) (err : Option E)
      → IsReadable output err
      → (o : Option Bytes) × (e : Option Bytes) × (marshal_output_set f output err ≡ some (o, e))
        × (unmarshal_documents f o e ≡ given output err)
  unfolding marshal_output_set unmarshal_documents
  readable output none (doc, enc, dec) =
      (some doc, none, rw (marshal_output_set, enc), rw (unmarshal_documents, dec))
  readable output (some e) (doc, enc, dec) =
      (none, some doc, rw (marshal_output_set, enc), rw (unmarshal_documents, dec))

  unmarshal_stored :
      (key : Bytes) (n : ResultRow) (e : Option Bytes)
      → n.status ≡ outcome e
      → unmarshal_output_set f
          (answer key (info_of n.ttl (stored_of_result n)) (stored_of_result n))
        ≡ unmarshal_documents f n.output n.err
  unfolding unmarshal_output_set answer
  unmarshal_stored key n none h = rw h
  unmarshal_stored key n (some e) h = rw h

  fresh :
      (later : ℕ) (key : Bytes) (n : ResultRow)
      → n.version ≡ handler_version f.version
      → n.ttl ≡ none
      → is_stale later f (answer key (info_of n.ttl (stored_of_result n)) (stored_of_result n))
        ≡ false
  unfolding is_stale
  fresh later key n v t = rw (
    answer_info key (info_of n.ttl (stored_of_result n)) (stored_of_result n),
    v,
    t,
    diff_refl (handler_version f.version),
  )

  pub lookup_fresh :
      (later : ℕ) (key : Bytes) (n : ResultRow) (o e : Option Bytes) (db : Db)
      → IsKept
      → find_result key db.results ≡ some n
      → n.version ≡ handler_version f.version
      → n.ttl ≡ none
      → n.status ≡ outcome e
      → n.output ≡ o
      → n.err ≡ e
      → lookup_hit f later key db ≡ (on_hit f (unmarshal_documents f o e), db)
  unfolding unmarshalfn
  lookup_fresh later key n o e db k stored v t st ho he =
      lookup_row later key n db k stored
      ∙ rw (unmarshalfn, fresh later key n v t, unmarshal_stored key n e (st), ho, he)

  lookup_settled :
      (later : ℕ) (key injson : Bytes) (x : Ran U E)
      → IsKept
      → is_set x.abort ≡ false
      → find_result key x.db.results ≡ none
      → IsReadable x.output x.err
      → lookup_hit f later key (settle f key injson x)
        ≡ (on_hit f (given x.output x.err), settle f key injson x)
  unfolding result_row job_meta
  lookup_settled later key injson x k p new r =
      let (o, e, m, u) = readable x.output x.err r in
      let n =
        result_row x.ended f.name
          (record (job_meta x.ended f.version f.job key done) { ttl = none }) key (some injson) o
          e in
      let stored =
        ap (find_result key) (settled key injson x o e k p m) ∙ upserted_new n x.db.results new in
      lookup_fresh later key n o e (settle f key injson x) k stored refl refl refl refl refl
      ∙ ap (λ l. (on_hit f l, settle f key injson x)) u

  abbrev pub recalled : U → Option E → U × Option (CallError E)
  recalled output err =
      if f.job.cache_err_on_hit
      then (f.zero_output, some duplicated)
      else elim err [ none ↦ (output, none) | some e ↦ (f.zero_output, some (own e)) ]

  -- The answer of a call whose first read of the cache gives a result.
  pub looked_up :
      (later interval wait_timeout : ℕ) (c : JobContext) (key injson : Bytes) (body : Db → Ran U E)
      (firings : List (ℕ × Db)) (db : Db) (output : U) (err : Option E)
      → call_looked f later interval wait_timeout c key injson body firings
          (on_hit f (given output err), db)
        ≡ record { answer = some (recalled output err); ran = false; db = db }
  unfolding call_looked on_hit
  looked_up later interval wait_timeout c key injson body firings db output none =
      elim (Bool-cases (f.job.cache_err_on_hit)) [ inl e ↦ simp e | inr e ↦ simp e ]
  looked_up later interval wait_timeout c key injson body firings db output (some x) =
      elim (Bool-cases (f.job.cache_err_on_hit)) [ inl e ↦ simp e | inr e ↦ simp e ]

  pub keyed_cached :
      (later interval wait_timeout : ℕ) (c : JobContext) (key injson : Bytes) (body : Db → Ran U E)
      (firings : List (ℕ × Db)) (db : Db)
      → IsKept
      → call_keyed f later interval wait_timeout c key injson body firings db
        ≡ call_looked f later interval wait_timeout c key injson body firings
            (lookup_hit f later key db)
  unfolding call_keyed
  keyed_cached later interval wait_timeout c key injson body firings db k = simp (k.caches)

  pub unaborted : (x : Ran U E) → is_set x.abort ≡ false → wants_requeue x.abort ≡ false
  unaborted x p = cases x.abort p
    where
      cases : (a : Abort) → is_set a ≡ false → wants_requeue a ≡ false
      cases proceed p = refl
      cases requeue p = cc
      cases abort p = cc
      cases (requeue_at n) p = cc

  pub run_settled :
      (interval : ℕ) (c : JobContext) (key injson : Bytes) (x : Ran U E)
      → wants_requeue x.abort ≡ false
      → run_body f interval c key injson x ≡ record {
        answer = some (x.output, own_error x.err);
        ran = true;
        db = settle f key injson x;
      }
  unfolding run_body
  run_settled interval c key injson x w = simp w

  -- For a function whose results are cached without a TTL, a run that is not aborted, of a key
  -- with no stored result, answers its output and error, where JSON gives them back; every
  -- later call of the key, at any time and with any body, then answers without running and
  -- leaves the database as it is: with the same output or error, or with ErrJobDuplicated where
  -- a hit is an error.
  pub run_body-recalled :
      (later interval wait_timeout : ℕ) (c c' : JobContext) (key injson injson' : Bytes)
      (x : Ran U E) (body : Db → Ran U E) (firings : List (ℕ × Db))
      → IsKept
      → is_set x.abort ≡ false
      → find_result key x.db.results ≡ none
      → IsReadable x.output x.err
      → let first = run_body f interval c key injson x in
        (first.answer ≡ some (x.output, own_error x.err))
        × (call_keyed f later interval wait_timeout c' key injson' body firings first.db
            ≡ record { answer = some (recalled x.output x.err); ran = false; db = first.db })
  run_body-recalled later interval wait_timeout c c' key injson injson' x body firings k p new r =
      rw (run_settled interval c key injson x (unaborted x p)) (
        refl,
        keyed_cached later interval wait_timeout c' key injson' body firings (settle f key injson x)
              k
            ∙ ap (call_looked f later interval wait_timeout c' key injson' body firings)
                (lookup_settled later key injson x k p new r)
            ∙ looked_up later interval wait_timeout c' key injson' body firings
                (settle f key injson x) x.output x.err,
      )
