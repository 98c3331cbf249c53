-- ===== src/Futures.antt =====
-- typedhandler_job_go.go: futures. The mutex makes each operation one step; the callbacks that an
-- operation starts, in `go` statements too, are its calls, and a callback is a number.
pub mod Callbacks
pub mod Rounds
mod Tests
use allino.Base.{ℕ, Bool, true, false, List, [], ◌∷◌, ◌++◌, map, Option, none, some}
use allino.Base.Bytes.{Bytes}

-- The three kinds of callbacks: of an output, of an error, of either.
pub data Kind : Type 0 where
  on_then on_catch on_finally : Kind

-- A call of a callback.
pub record Ring : Type 0 where
  pub kind : Kind
  pub callback : ℕ

-- What a future resolves to.
pub record Outcome (U E : Type 0) : Type 0 where
  pub output : U
  pub err : Option E

-- `Future`; `result` is there where `doneOk` is true.
pub record Future (U E : Type 0) : Type 0 where
  pub result : Option (Outcome U E)
  pub then_fns : List ℕ
  pub catch_fns : List ℕ
  pub finally_fns : List ℕ

unfoldable pub new_future : {U E : Type 0} → Future U E
new_future = record { result = none; then_fns = []; catch_fns = []; finally_fns = [] }

abbrev pub rings : Kind → List ℕ → List Ring
rings k fns = map (λ n. record { kind = k; callback = n }) fns

module _ {U E : Type 0} where
  -- The callbacks of `Then` or of `Catch`, by the error.
  unfoldable pub settled_rings : Option E → Future U E → List Ring
  settled_rings none f = rings on_then f.then_fns
  settled_rings (some e) f = rings on_catch f.catch_fns

  unfoldable pub returns : U → Option E → Future U E → List Ring × Future U E
  unfolding settled_rings
  returns output err f = elim f.result [
    | some _ ↦ ([], f)
    | none ↦ (
      settled_rings err f ++ rings on_finally f.finally_fns,
      record f { result = some (record { output = output; err = err }) },
    )
  ]

  unfoldable pub add_then : ℕ → Future U E → List Ring × Future U E
  add_then fn f = elim f.result [
    | none ↦ ([], record f { then_fns = f.then_fns ++ fn ∷ [] })
    | some r ↦ elim r.err [
      | none ↦ (rings on_then (fn ∷ []), f)
      | some _ ↦ ([], record f { then_fns = f.then_fns ++ fn ∷ [] })
    ]
  ]

  unfoldable pub add_catch : ℕ → Future U E → List Ring × Future U E
  add_catch fn f = elim f.result [
    | none ↦ ([], record f { catch_fns = f.catch_fns ++ fn ∷ [] })
    | some r ↦ elim r.err [
      | none ↦ ([], record f { catch_fns = f.catch_fns ++ fn ∷ [] })
      | some _ ↦ (rings on_catch (fn ∷ []), f)
    ]
  ]

  unfoldable pub add_finally : ℕ → Future U E → List Ring × Future U E
  add_finally fn f = elim f.result [
    | none ↦ ([], record f { finally_fns = f.finally_fns ++ fn ∷ [] })
    | some _ ↦ (rings on_finally (fn ∷ []), f)
  ]

-- An operation on a future.
pub data Op (U E : Type 0) : Type 0 where
  resolves : U → Option E → Op U E
  registers : Kind → ℕ → Op U E

module _ {U E : Type 0} where
  unfoldable pub apply_op : Op U E → Future U E → List Ring × Future U E
  unfolding returns add_then add_catch add_finally
  apply_op (resolves output err) f = returns output err f
  apply_op (registers on_then fn) f = add_then fn f
  apply_op (registers on_catch fn) f = add_catch fn f
  apply_op (registers on_finally fn) f = add_finally fn f

  -- The calls that operations in turn make.
  unfoldable pub run_ops : List (Op U E) → Future U E → List Ring × Future U E
  unfolding apply_op
  run_ops [] f = ([], f)
  run_ops (op ∷ ops) f =
      let (first, f') = apply_op op f in let (rest, f'') = run_ops ops f' in (first ++ rest, f'')

-- The errors that `go_internal` looks into: `Unwrap` gives one error, or several, or nil.
mutual
  pub data GoError : Type 0 where
    plain : Bytes → GoError
    pending_error : Bytes → GoError
    wraps_nothing : GoError
    wraps : GoError → GoError
    joins : GoErrors → GoError

  pub data GoErrors : Type 0 where
    no_errors : GoErrors
    and_nothing : GoErrors → GoErrors
    and_error : GoError → GoErrors → GoErrors

abbrev pub pending_job : GoError → Option Bytes
pending_job (pending_error id) = some id
pending_job _ = none

unfoldable pub first_pending : GoErrors → Option Bytes
first_pending no_errors = none
first_pending (and_nothing es) = first_pending es
first_pending (and_error e es) =
    let rest = first_pending es in elim (pending_job e) [ some id ↦ some id | none ↦ rest ]

-- The job that a call has to wait for: that of the error itself, or of one that it wraps.
unfoldable pub waits_for : Option GoError → Option Bytes
unfolding first_pending
waits_for none = none
waits_for (some (plain e)) = none
waits_for (some (pending_error id)) = some id
waits_for (some wraps_nothing) = none
waits_for (some (wraps e)) = pending_job e
waits_for (some (joins es)) = first_pending es

-- One round of `go_internal`: what `Call` gives, and the error of a `Wait` for a job, by its id.
pub record Round (U : Type 0) : Type 0 where
  pub output : U
  pub err : Option GoError
  pub wait_err : Bytes → Option GoError

-- `go_internal` over its rounds: what it returns to the future; `none` is not there yet.
unfoldable pub go_internal : {U : Type 0} → U → List (Round U) → Option (Outcome U GoError)
unfolding waits_for
go_internal zero_output [] = none
go_internal zero_output (r ∷ rs) = elim (waits_for r.err) [
  | none ↦ some (record { output = r.output; err = r.err })
  | some id ↦ elim (r.wait_err id) [
    | some e ↦ some (record { output = zero_output; err = some e })
    | none ↦ go_internal zero_output rs
  ]
]
