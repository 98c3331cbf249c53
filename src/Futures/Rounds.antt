-- ===== src/Futures/Rounds.antt =====
-- `go_internal` of typedhandler_job_go.go: what a future of a job resolves to.
use allino.Base.{
  ◌≡◌, refl, ap, List, [], ◌∷◌, ◌++◌, Option, none, some, Option-cases, inl, inr, ◌⊎◌,
}
use allino.Base.Bytes.{Bytes}
use allino.Futures.{
  Outcome, GoError, plain, pending_error, wraps_nothing, wraps, joins, GoErrors, no_errors,
  and_nothing, and_error, pending_job, first_pending, waits_for, Round, go_internal,
}

-- An error at a place of a list, with those before it.
abbrev pub Joined : (GoError → Type 0) → (GoError → Type 0) → GoErrors → Type 0
Joined Before P no_errors = ⊥
Joined Before P (and_nothing es) = Joined Before P es
Joined Before P (and_error e es) = P e ⊎ (Before e × Joined Before P es)

abbrev pub AllJoined : (GoError → Type 0) → GoErrors → Type 0
AllJoined P no_errors = Unit
AllJoined P (and_nothing es) = AllJoined P es
AllJoined P (and_error e es) = P e × AllJoined P es

-- The error is that of a pending job itself, or of no pending job.
abbrev pub IsPending : Bytes → GoError → Type 0
IsPending id e = e ≡ pending_error id

abbrev pub IsOther : GoError → Type 0
IsOther (pending_error id) = ⊥
IsOther _ = Unit

-- The error names a job to wait for: it is that of the job, or wraps it, or joins it behind errors of
-- no pending job. A deeper one is not seen.
abbrev pub Awaits : Bytes → Option GoError → Type 0
Awaits id none = ⊥
Awaits id (some (plain e)) = ⊥
Awaits id (some (pending_error job)) = job ≡ id
Awaits id (some wraps_nothing) = ⊥
Awaits id (some (wraps e)) = IsPending id e
Awaits id (some (joins es)) = Joined IsOther (IsPending id) es

-- It names none.
abbrev pub IsFinal : Option GoError → Type 0
IsFinal none = Unit
IsFinal (some (plain e)) = Unit
IsFinal (some (pending_error job)) = ⊥
IsFinal (some wraps_nothing) = Unit
IsFinal (some (wraps e)) = IsOther e
IsFinal (some (joins es)) = AllJoined IsOther es

-- What the code finds in an error is the job that it names.
abbrev FirstJoined : GoErrors → Type 0
FirstJoined es =
    ((id : Bytes) × (first_pending es ≡ some id) × Joined IsOther (IsPending id) es)
    ⊎ ((first_pending es ≡ none) × AllJoined IsOther es)

behind :
    (e : GoError) (es : GoErrors)
    → pending_job e ≡ none
    → IsOther e
    → FirstJoined es
    → FirstJoined (and_error e es)
unfolding first_pending
behind e es none_here other (inl (id, f, j)) =
    inl (id, rw (none_here, first_pending) f, inr (other, j))
behind e es none_here other (inr (f, j)) = inr (rw (none_here, first_pending) f, (other, j))

first_pending-joined : (es : GoErrors) → FirstJoined es
unfolding first_pending
first_pending-joined no_errors = inr (refl, tt)
first_pending-joined (and_nothing es) = first_pending-joined es
first_pending-joined (and_error (pending_error id) es) = inl (id, refl, inl refl)
first_pending-joined (and_error (plain e) es) =
    behind (plain e) es refl tt (first_pending-joined es)
first_pending-joined (and_error wraps_nothing es) =
    behind wraps_nothing es refl tt (first_pending-joined es)
first_pending-joined (and_error (wraps e) es) =
    behind (wraps e) es refl tt (first_pending-joined es)
first_pending-joined (and_error (joins e) es) =
    behind (joins e) es refl tt (first_pending-joined es)

abbrev Decides : Option GoError → Type 0
Decides err =
    ((id : Bytes) × (waits_for err ≡ some id) × Awaits id err)
    ⊎ ((waits_for err ≡ none) × IsFinal err)

waits_for-Decides : (err : Option GoError) → Decides err
unfolding waits_for
waits_for-Decides none = inr (refl, tt)
waits_for-Decides (some (plain e)) = inr (refl, tt)
waits_for-Decides (some (pending_error id)) = inl (id, refl, refl)
waits_for-Decides (some wraps_nothing) = inr (refl, tt)
waits_for-Decides (some (wraps (plain e))) = inr (refl, tt)
waits_for-Decides (some (wraps (pending_error id))) = inl (id, refl, refl)
waits_for-Decides (some (wraps wraps_nothing)) = inr (refl, tt)
waits_for-Decides (some (wraps (wraps e))) = inr (refl, tt)
waits_for-Decides (some (wraps (joins es))) = inr (refl, tt)
waits_for-Decides (some (joins es)) = first_pending-joined es

module _ {U : Type 0} (zero_output : U) where
  -- A round after which the job is called again: its error names a job, and the wait succeeds.
  abbrev pub IsRetry : Round U → Type 0
  IsRetry r = (id : Bytes) × Awaits id r.err × (r.wait_err id ≡ none)

  abbrev pub AreRetries : List (Round U) → Type 0
  AreRetries [] = Unit
  AreRetries (r ∷ rs) = IsRetry r × AreRetries rs

  -- How a round ends the future: its error names no job, or the wait for the job fails.
  abbrev pub Ends : Round U → Outcome U GoError → Type 0
  Ends r o =
      (IsFinal r.err × (o.output ≡ r.output) × (o.err ≡ r.err))
      ⊎ ((id : Bytes) × (e : GoError) × Awaits id r.err
          × (r.wait_err id ≡ some e)
          × (o.output ≡ zero_output)
          × (o.err ≡ some e))

  -- The first round that ends the future stands behind retries.
  abbrev pub EndsAt : List (Round U) → Outcome U GoError → Type 0
  EndsAt rs o =
      (before : List (Round U)) × (last : Round U) × (after : List (Round U)) × (rs
        ≡ before ++ last ∷ after)
      × AreRetries before
      × Ends last o

  again :
      (r : Round U) (rs : List (Round U)) (o : Outcome U GoError)
      → IsRetry r
      → EndsAt rs o
      → EndsAt (r ∷ rs) o
  again r rs o retry (before, last, after, split, retries, ends) =
      (r ∷ before, last, after, ap (◌∷◌ r) split, (retry, retries), ends)

  -- Whatever the rounds of a call and its wait give: either the error of every round names a
  -- pending job (it is that of the job, wraps it, or joins it as the first of its kind) for
  -- which the wait succeeds, and the future has no result yet; or the future has the result of
  -- the first round that is not so: the output and error of a call whose error names no such
  -- job, or the zero output and the error of the wait that fails.
  pub go_internal-rounds :
      (rs : List (Round U))
      → (AreRetries rs × (go_internal zero_output rs ≡ none))
        ⊎ ((o : Outcome U GoError) × (go_internal zero_output rs ≡ some o) × EndsAt rs o)
  unfolding go_internal
  go_internal-rounds [] = inl (tt, refl)
  go_internal-rounds (r ∷ rs) = elim (waits_for-Decides r.err) [
    | inr (n, final) ↦ inr (
      record { output = r.output; err = r.err },
      rw (go_internal, n),
      ([], r, rs, refl, tt, inl (final, refl, refl)),
    )
    | inl (id, w, awaits) ↦ elim (Option-cases (r.wait_err id)) [
      | inr (e, f) ↦ inr (
        record { output = zero_output; err = some e },
        rw (go_internal, w, f),
        ([], r, rs, refl, tt, inr (id, e, awaits, f, refl, refl)),
      )
      | inl k ↦ elim (go_internal-rounds rs) [
        | inl (retries, unresolved) ↦
            inl (((id, awaits, k), retries), rw (go_internal, w, k) unresolved)
        | inr (o, e, ends) ↦ inr (o, rw (go_internal, w, k) e, again r rs o (id, awaits, k) ends)
      ]
    ]
  ]
