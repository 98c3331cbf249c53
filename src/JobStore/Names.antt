-- ===== src/JobStore/Names.antt =====
-- Names and codes of statuses in typedhandler_job_store.go agree.
use allino.Base.{
  ℕ, zero, suc, ◌+◌, ◌<◌, ◌≡◌, refl, ap, sym, ◌∙◌, inl, inr, false, List, [], ◌∷◌, Option, none,
  some, if◌then◌else◌, arith, Bool-cases,
}
use allino.Base.Bytes.{Bytes, bytes_eq, bytes_eq_comm, eq_of_bytes_eq, codes}
use allino.Base.Int.{ℤ, pos, negsuc}
use allino.JobIds.{atoi, number, digits}
use allino.JobStore.{
  known_code, job_status_code, name_of, job_status_name, add_count, store_total, count_at,
}

known_code-bound : (o : Option ℤ) (c : ℕ) → known_code o ≡ some c → c < 4
unfolding known_code
known_code-bound none c e = cc
known_code-bound (some (pos n)) c e = ground (arith, e)
known_code-bound (some (negsuc n)) c e = cc

-- A string with a known code is not a name, which has none.
not_named :
    (status name : Bytes) (c : ℕ)
    → known_code (atoi name) ≡ none
    → known_code (atoi status) ≡ some c
    → bytes_eq status name ≡ false
not_named status name c h e = elim (Bool-cases (bytes_eq status name)) [
  | inl t ↦ cc (eq_of_bytes_eq status name t)
  | inr f ↦ f
]

by_code :
    (status : Bytes) (c : ℕ) → known_code (atoi status) ≡ some c → job_status_code status ≡ some c
unfolding job_status_code known_code atoi number digits
by_code status c e =
    rw
      (
        not_named status (codes "queued") c refl e,
        not_named status (codes "leased") c refl e,
        not_named status (codes "done") c refl e,
        not_named status (codes "error") c refl e,
        e,
      )
      refl

by_name : (status : Bytes) (c : ℕ) → c < 4 → job_status_code (name_of status (some c)) ≡ some c
unfolding job_status_code name_of
by_name status zero l = refl
by_name status (suc zero) l = refl
by_name status (suc (suc zero)) l = refl
by_name status (suc (suc (suc zero))) l = refl
by_name status (suc (suc (suc (suc c)))) l = absurd (omega (arith, l))

named-code :
    (status : Bytes) (o : Option ℕ)
    → known_code (atoi status) ≡ o
    → job_status_code (name_of status o) ≡ job_status_code status
named-code status none e = unfold name_of in refl
named-code status (some c) e =
    by_name status c (known_code-bound (atoi status) c e) ∙ sym (by_code status c e)

-- JobStatusCode answers the same for a status, of whatever spelling, and for the name that
-- jobStatusName gives it.
pub job_status_code-job_status_name :
    (status : Bytes) → job_status_code (job_status_name status) ≡ job_status_code status
unfolding job_status_name
job_status_code-job_status_name status = named-code status (known_code (atoi status)) refl

-- What the entries of the given name sum up to.
abbrev pub sum_named : Bytes → List (Bytes × ℕ) → ℕ
sum_named name [] = 0
sum_named name ((status, n) ∷ raw) =
    let rest = sum_named name raw in
    if bytes_eq (job_status_name status) name then n + rest else rest

count_at-add_count :
    (name k : Bytes) (n : ℕ) (out : List (Bytes × ℕ))
    → count_at name (add_count k n out)
      ≡ (if bytes_eq k name then n + count_at name out else count_at name out)
unfolding count_at add_count
count_at-add_count name k n [] = ground arith
count_at-add_count name k n ((j, m) ∷ out) = elim (Bool-cases (bytes_eq j k)) [
  | inl e ↦ rw (e, add_count) (rw (eq_of_bytes_eq j k e) (ground arith))
  | inr e ↦ elim (Bool-cases (bytes_eq j name)) [
    | inl f ↦
        let ne : bytes_eq k name ≡ false =
          ap (bytes_eq k) (sym (eq_of_bytes_eq j name f)) ∙ bytes_eq_comm k j ∙ e in
        rw (e, add_count) (rw (f, ne) refl)
    | inr f ↦ rw (e, add_count) (rw f (count_at-add_count name k n out))
  ]
]

-- Total of the job store answers for every name the sum of the counts of all statuses that have
-- this name.
pub store_total-sum_named :
    (name : Bytes) (raw : List (Bytes × ℕ)) → count_at name (store_total raw) ≡ sum_named name raw
unfolding store_total
store_total-sum_named name [] = unfold count_at in refl
store_total-sum_named name ((status, n) ∷ raw) =
    count_at-add_count name (job_status_name status) n (store_total raw)
    ∙ rw (store_total-sum_named name raw) refl
