-- ===== src/Jobs/Reaped.antt =====
-- `Reaping` of typedhandler_job_sql.go: what its three statements do to each row together.
use allino.Base.{
  ℕ, ◌+◌, ◌≡◌, refl, ap, ◌∙◌, Bool, false, ◌&&◌, ◌||◌, List, [], ◌∷◌, Option, none, some,
  if◌then◌else◌, ltb, leb, arith, Bool-cases, Option-cases, inl, inr,
}
use allino.Base.Bytes.{Bytes, codes, bytes_eq, eq_of_bytes_eq}
use allino.Jobs.Table.{
  Row, Db, Status, queued, leased, done, error, status_eq, before, change, keep_rows, update_rows,
  delete_rows, find_row,
}
use allino.Jobs.Keys.{KeepsKey, AreKeyed, find_row-map, find_row-keep, map-AreKeyed}
use allino.Jobs.Queue.{
  expired, spent, at_least, count_or_zero, fail_row, release_row, outlived, reaping,
}

-- A lease with an end, that is over.
abbrev pub is_lease_over : ℕ → Status → Option ℕ → Bool
is_lease_over now leased (some t) = ltb t now
is_lease_over now leased none = false
is_lease_over now _ _ = false

-- A finished job with a TTL, that is over.
abbrev pub is_ttl_over : ℕ → Status → Option ℕ → Bool
is_ttl_over now done (some t) = ltb t now
is_ttl_over now error (some t) = ltb t now
is_ttl_over now _ _ = false

-- A count that has reached the limit; there is no count before the first retry.
abbrev pub are_retries_used : Option ℕ → ℕ → Bool
are_retries_used none maxretry = false
are_retries_used (some n) maxretry = leb maxretry n

abbrev pub one_more : Option ℕ → Option ℕ
one_more none = some 1
one_more (some n) = some (n + 1)

-- One row through the reaping, column by column: a job whose lease ran out fails where its retries
-- are used up, and is queued again with one more retry otherwise; then a finished job that has
-- outlived its TTL is gone.
abbrev pub retried : ℕ → ℕ → Row → Row
retried now maxretry r =
    if is_lease_over now r.status r.leased_until
    then (if are_retries_used r.retry_count maxretry
        then record r {
          status = error;
          err = some (codes "{\"message\": \"max retries exceeded during reaping\"}");
          updated_at = now;
        }
        else record r {
          status = queued;
          leased_until = none;
          updated_at = now;
          retry_count = one_more r.retry_count;
        })
    else r

abbrev pub reaped : ℕ → ℕ → Row → Option Row
reaped now maxretry r =
    let q = retried now maxretry r in if is_ttl_over now q.status q.ttl then none else some q

lease_tests :
    (now : ℕ) (s : Status) (until : Option ℕ)
    → status_eq s leased && before until now ≡ is_lease_over now s until
lease_tests now leased none = refl
lease_tests now leased (some t) = refl
lease_tests now queued until = refl
lease_tests now done until = refl
lease_tests now error until = refl

ttl_tests :
    (now : ℕ) (s : Status) (ttl : Option ℕ)
    → (status_eq s done || status_eq s error) && before ttl now ≡ is_ttl_over now s ttl
ttl_tests now done none = refl
ttl_tests now done (some t) = refl
ttl_tests now error none = refl
ttl_tests now error (some t) = refl
ttl_tests now queued ttl = refl
ttl_tests now leased ttl = refl

count_tests : (n : Option ℕ) (maxretry : ℕ) → at_least n maxretry ≡ are_retries_used n maxretry
count_tests none maxretry = refl
count_tests (some n) maxretry = refl

one_more_tests : (n : Option ℕ) → some (count_or_zero n + 1) ≡ one_more n
one_more_tests none = refl
one_more_tests (some n) = refl

find_row-keep_rows :
    (p : Row → Bool) (key : Bytes) (rs : List Row)
    → AreKeyed rs
    → find_row key (keep_rows p rs)
      ≡ elim (find_row key rs) [ none ↦ none | some r ↦ if p r then none else some r ]
unfolding find_row keep_rows
find_row-keep_rows p key [] k = refl
find_row-keep_rows p key (r ∷ rs) k = elim (Bool-cases (bytes_eq r.key key)) [
  | inl e ↦
      let gone = find_row-keep p key rs (rw (eq_of_bytes_eq r.key key e) at k.0) in
      ground (arith, gone)
  | inr e ↦ ground (arith, find_row-keep_rows p key rs k.1)
]

-- The row by the code's own tests and updates.
abbrev coded : ℕ → ℕ → Row → Row
coded now maxretry r =
    if expired now r
    then (if at_least r.retry_count maxretry then fail_row now r else release_row now r)
    else r

-- Two updates in a row, of which the second does not apply to what the first has failed.
twice_changed :
    (now maxretry : ℕ) (r : Row)
    → change (expired now) (release_row now) (change (spent now maxretry) (fail_row now) r)
      ≡ coded now maxretry r
unfolding fail_row release_row
twice_changed now maxretry r = elim (Bool-cases (expired now r)) [
  | inl e ↦ elim (Bool-cases (at_least r.retry_count maxretry)) [
    | inl t ↦ rw (e, t)
    | inr t ↦ rw (e, t) (rw e)
  ]
  | inr e ↦ rw e (rw e)
]

coded-retried : (now maxretry : ℕ) (r : Row) → coded now maxretry r ≡ retried now maxretry r
unfolding fail_row release_row
coded-retried now maxretry r =
    ap
      (λ c.
        if c
        then (if at_least r.retry_count maxretry then fail_row now r else release_row now r)
        else r)
      (lease_tests now r.status r.leased_until)
    ∙ ap
        (λ c.
          if is_lease_over now r.status r.leased_until
          then (if c then fail_row now r else release_row now r)
          else r)
        (count_tests r.retry_count maxretry)
    ∙ ap
        (λ n.
          if is_lease_over now r.status r.leased_until
          then (if are_retries_used r.retry_count maxretry then fail_row now r else record r {
            status = queued;
            leased_until = none;
            updated_at = now;
            retry_count = n;
          })
          else r)
        (one_more_tests r.retry_count)

coded-reaped :
    (now maxretry : ℕ) (r q : Row)
    → q ≡ retried now maxretry r
    → (if outlived now q then none else some q) ≡ reaped now maxretry r
coded-reaped now maxretry r q is =
    ap (λ c. if c then none else some q) (ttl_tests now q.status q.ttl)
    ∙ ap (λ (p : Row). if is_ttl_over now p.status p.ttl then none else some p) is

-- In a table with unique keys, the three statements of Reaping together do this to the job of
-- every key: a leased job whose lease has run out becomes an error, with the message of the
-- reaping, where its retry count has reached the limit, and is queued again without a lease and
-- with one more retry otherwise, every other job stays, and then a finished job that has
-- outlived its TTL is gone; a key without a job has none afterwards.
pub reaping-reaped :
    (now maxretry : ℕ) (key : Bytes) (db : Db)
    → AreKeyed db.executions
    → find_row key (reaping now maxretry db).executions
      ≡ elim (find_row key db.executions) [ none ↦ none | some r ↦ reaped now maxretry r ]
unfolding reaping delete_rows update_rows
reaping-reaped now maxretry key db k =
    rw
      (
        find_row-keep_rows (outlived now) key _ (
            map-AreKeyed (expired now) (release_row now) _ keeps_released
              (map-AreKeyed (spent now maxretry) (fail_row now) db.executions keeps_failed k)),
        find_row-map (expired now) (release_row now) key _ keeps_released,
        find_row-map (spent now maxretry) (fail_row now) key db.executions keeps_failed,
      )
      (elim (Option-cases (find_row key db.executions)) [
        | inl n ↦ rw n
        | inr (r, f) ↦ rw f (
            coded-reaped now maxretry r _
              (twice_changed now maxretry r ∙ coded-retried now maxretry r))
      ])
  where
    keeps_released : KeepsKey (release_row now)
    keeps_released q = unfold release_row in (refl, refl)

    keeps_failed : KeepsKey (fail_row now)
    keeps_failed q = unfold fail_row in (refl, refl)

-- In a table with unique keys, a job that is leased without an end of its lease is changed by
-- no Reaping, at any time and with any limit of retries.
pub reaping_unleased :
    (now maxretry : ℕ) (key : Bytes) (db : Db) (r : Row)
    → AreKeyed db.executions
    → find_row key db.executions ≡ some r
    → r.status ≡ leased
    → r.leased_until ≡ none
    → find_row key (reaping now maxretry db).executions ≡ some r
reaping_unleased now maxretry key db r k e st lu =
    reaping-reaped now maxretry key db k ∙ rw e (rw (st, lu))
