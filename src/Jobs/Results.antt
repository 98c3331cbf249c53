-- ===== src/Jobs/Results.antt =====
-- Results of jobs in typedhandler_job_sql.go: stored, read back, and waited for.
use allino.Base.{
  subst, ℕ, ◌≡◌, refl, ap, sym, ◌∙◌, Bool, true, false, List, [], ◌∷◌, map, Option, none, some,
  if◌then◌else◌, Bool-cases, Option-cases, inl, inr,
}
use allino.Base.Bytes.{Bytes, bytes_eq, bytes_eq_refl}
use allino.Jobs.Table.{
  JobMeta, Row, ResultRow, Db, Status, queued, leased, done, error, update_rows, find_row,
  find_result,
}
use allino.Jobs.Keys.{KeepsKey, find_row-map}
use allino.Jobs.Rows.{Holds-find_row}
use allino.Jobs.Queue.{has_key}
use allino.Jobs.Outcome.{
  Reply, result, answer, poll, wait, finished, stored_result, stored_row, stored_of_row,
  stored_of_result, no_job, Stored, JobInfo, fetch, info_of,
}
use allino.Jobs.Finish.{outcome, upsert_result, result_row, done_async, insert_checked, store_done}

-- `opt.Job.CacheExpire != 0`, which decides the table to read, holds where the job has a TTL.
abbrev pub has_ttl : Option ℕ → Bool
has_ttl none = false
has_ttl (some t) = true

-- The reply that carries the output and the error.
abbrev pub Delivers : Option Bytes → Option Bytes → Reply → Type 0
Delivers outjson errjson r = (r.output ≡ outjson) × (r.err ≡ errjson) × (r.syserr ≡ none)

upserted :
    (n : ResultRow) (rs : List ResultRow)
    → (q : ResultRow) × (find_result n.key (upsert_result n rs) ≡ some q)
      × (q.status ≡ n.status)
      × (q.output ≡ n.output)
      × (q.err ≡ n.err)
unfolding find_result upsert_result
upserted n [] = (n, rw (bytes_eq_refl n.key), refl, refl, refl)
upserted n (r ∷ rs) = elim (Bool-cases (bytes_eq r.key n.key)) [
  | inl e ↦ (
    record r { output = n.output; err = n.err; status = n.status; updated_at = n.updated_at },
    rw e (rw e),
    refl,
    refl,
    refl,
  )
  | inr e ↦ let (q, f, a, b, c) = upserted n rs in (q, rw e (rw e f), a, b, c)
]

delivered :
    (key : Bytes) (outjson errjson : Option Bytes) (s : Stored) (info : JobInfo)
    → info.meta.status ≡ outcome errjson
    → s.output ≡ outjson
    → s.err ≡ errjson
    → Delivers outjson errjson (answer key info s)
unfolding answer
delivered key outjson none s info st o e = rw st (o, e, refl)
delivered key outjson (some x) s info st o e = rw st (o, e, refl)

-- A row that is there keeps its key under an update of that key, and takes the new columns.
pub found_after :
    (key : Bytes) (f : Row → Row) (db : Db) (r : Row)
    → KeepsKey f
    → find_row key db.executions ≡ some r
    → find_row key (update_rows (has_key key) f db).executions ≡ some (f r)
unfolding update_rows
found_after key f db r same e =
    let at_key = (Holds-find_row key db.executions r e).1 in
    rw (find_row-map (has_key key) f key db.executions same, e, at_key, bytes_eq_refl key)

-- The reply to what a read has found.
abbrev replied : Bytes → Option Stored → Reply
replied key none = no_job
replied key (some s) = answer key (info_of none s) s

result-replied : (key : Bytes) (v : Bool) (db : Db) → result key v db ≡ replied key (fetch key v db)
unfolding result
result-replied key v db = elim (Option-cases (fetch key v db)) [
  | inl e ↦ rw (result, e)
  | inr (s, e) ↦ rw (result, e)
]

-- A read that finds a finished job gives its output and error.
read_back :
    (key : Bytes) (volatile : Bool) (outjson errjson : Option Bytes) (db : Db) (s : Stored)
    → s.status ≡ outcome errjson
    → s.output ≡ outjson
    → s.err ≡ errjson
    → fetch key volatile db ≡ some s
    → Delivers outjson errjson (result key volatile db)
read_back key volatile outjson errjson db s st o e f =
    subst (Delivers outjson errjson) (sym (result-replied key volatile db ∙ ap (replied key) f))
      (delivered key outjson errjson s (info_of none s) st o e)

module _ (now : ℕ) (handler : Bytes) (meta : JobMeta) (key : Bytes)
    (injson outjson errjson : Option Bytes) (db : Db) where
  -- Where the job's TTL is the given one, the result that is stored reads back.
  abbrev Stores : Option ℕ → Type 0
  Stores ttl =
      meta.ttl ≡ ttl
      → Delivers outjson errjson
          (result key (has_ttl ttl) (done_async now handler meta key injson outjson errjson db))

  stored_volatile : (t : ℕ) (r : Row) → find_row key db.executions ≡ some r → Stores (some t)
  unfolding done_async
  stored_volatile t r e mt =
      let write = λ (s : Row). record s {
        status = outcome errjson;
        ttl = some t;
        output = outjson;
        err = errjson;
        updated_at = now;
      } in
      let found = found_after key write db r (λ s. (refl, refl)) e in
      rw mt (
        read_back key true outjson errjson (update_rows (has_key key) write db)
          (stored_of_row (write r)) refl refl refl (ap stored_row found))

  stored_persistent : Stores none
  unfolding done_async result_row update_rows
  stored_persistent mt =
      let n = result_row now handler (record meta { ttl = none }) key injson outjson errjson in
      let (q, f, st, o, e) = upserted n db.results in
      let mark = λ (s : Row). record s { status = outcome errjson; ttl = none; updated_at = now } in
      let db' = update_rows (has_key key) mark db in
      rw mt (
        read_back key false outjson errjson (record db' { results = upsert_result n db.results })
          (stored_of_result q) st o e (ap stored_result f))

  -- DoneAsync of a job whose row is in the queue makes its output and error what Result
  -- answers, whether the job has a TTL (and its row holds them) or none (and executions_results
  -- does).
  pub done_async-result :
      (r : Row)
      → find_row key db.executions ≡ some r
      → Delivers outjson errjson (
          result key (has_ttl meta.ttl) (done_async now handler meta key injson outjson errjson db))
  done_async-result r e =
      let kept = λ (ttl : Option ℕ).
        Delivers outjson errjson
          (result key (has_ttl ttl) (done_async now handler meta key injson outjson errjson db)) in
      elim (Option-cases meta.ttl) [
        | inl q ↦ subst kept (sym q) (stored_persistent q)
        | inr (t, q) ↦ subst kept (sym q) (stored_volatile t r e q)
      ]

  -- What `Done` has done: it has failed, where the job has a TTL, or its result reads back.
  abbrev pub Answered : Option Db → Type 0
  Answered none = has_ttl meta.ttl ≡ true
  Answered (some db') = (has_ttl meta.ttl ≡ false) × Delivers outjson errjson (result key false db')

  -- Done of a job with a TTL fails, whatever the database holds; Done of a job without one
  -- succeeds, and Result then answers its output and error.
  pub store_done-Answered : Answered (store_done now handler meta key injson outjson errjson db)
  unfolding store_done insert_checked result_row
  store_done-Answered = elim (Option-cases meta.ttl) [
    | inl e ↦
        let n = result_row now handler (record meta { ttl = none }) key injson outjson errjson in
        let (q, f, st, o, x) = upserted n db.results in
        rw e (
          refl,
          read_back key false outjson errjson (record db { results = upsert_result n db.results })
              (stored_of_result q) st o x (ap stored_result f),
        )
    | inr (t, e) ↦ rw e refl
  ]

-- The first database, among those the firings see, in which the job is finished.
pub first_finished : Bytes → Bool → List Db → Option Reply
first_finished key v [] = none
first_finished key v (db ∷ dbs) =
    let rest = first_finished key v dbs in
    elim (fetch key v db) [
      | none ↦ rest
      | some s ↦ if finished s.status then some (answer key (info_of none s) s) else rest
    ]

poll-answer :
    (start wait_timeout later : ℕ) (key : Bytes) (s : Stored) (st : Status)
    → s.status ≡ st
    → poll start wait_timeout later (answer key (info_of none s) s)
      ≡ (if finished s.status then some (answer key (info_of none s) s) else none)
unfolding poll answer
poll-answer start wait_timeout later key s queued e = rw e refl
poll-answer start wait_timeout later key s leased e = rw e refl
poll-answer start wait_timeout later key s done e = rw e refl
poll-answer start wait_timeout later key s error e = rw e refl

poll-replied :
    (start wait_timeout later : ℕ) (key : Bytes) (v : Bool) (db : Db)
    → poll start wait_timeout later (result key v db) ≡ elim (fetch key v db) [
      | none ↦ none
      | some s ↦ if finished s.status then some (answer key (info_of none s) s) else none
    ]
unfolding poll answer
poll-replied start wait_timeout later key v db = elim (Option-cases (fetch key v db)) [
  | inl e ↦ rw (result-replied key v db, e)
  | inr (s, e) ↦
      rw (result-replied key v db, e) (poll-answer start wait_timeout later key s s.status refl)
]

-- Wait answers with the first finished job that a firing of its callback reads, and with
-- nothing else: it does not depend on the clock, the lease or the wait timeout.
pub wait-first_finished :
    (start wait_timeout : ℕ) (key : Bytes) (v : Bool) (firings : List (ℕ × Db))
    → wait start wait_timeout key v firings ≡ first_finished key v (map (λ f. f.1) firings)
unfolding wait first_finished
wait-first_finished start wait_timeout key v [] = refl
wait-first_finished start wait_timeout key v ((later, db) ∷ rest) =
    let step = poll-replied start wait_timeout later key v db in
    let later_on = wait-first_finished start wait_timeout key v rest in
    elim (Option-cases (fetch key v db)) [
      | inl e ↦ rw (wait, first_finished, step, e) later_on
      | inr (s, e) ↦ elim (Bool-cases (finished s.status)) [
        | inl f ↦ rw (wait, first_finished, step, e, f)
        | inr f ↦ rw (wait, first_finished, step, e, f) later_on
      ]
    ]
