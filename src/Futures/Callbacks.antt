-- ===== src/Futures/Callbacks.antt =====
-- Callbacks of futures in typedhandler_job_go.go: which are called, and how often.
use allino.Base.{
  ℕ, ◌+◌, ◌==◌, ◌≡◌, refl, ap, ◌∙◌, Bool, true, false, ◌&&◌, List, [], ◌∷◌, ◌++◌, Option, none,
  some, if◌then◌else◌, arith,
}
use allino.Futures.{
  Kind, on_then, on_catch, on_finally, Ring, rings, Outcome, Future, new_future, settled_rings,
  returns, add_then, add_catch, add_finally, Op, resolves, registers, apply_op, run_ops,
}

abbrev pub kind_eq : Kind → Kind → Bool
kind_eq on_then on_then = true
kind_eq on_catch on_catch = true
kind_eq on_finally on_finally = true
kind_eq _ _ = false

-- How often a callback of a kind is called.
unfoldable pub calls_of : Kind → ℕ → List Ring → ℕ
calls_of k n [] = 0
calls_of k n (r ∷ rs) = (if kind_eq r.kind k && r.callback == n then 1 else 0) + calls_of k n rs

calls_of-append :
    (k : Kind) (n : ℕ) (rs ss : List Ring)
    → calls_of k n (rs ++ ss) ≡ calls_of k n rs + calls_of k n ss
unfolding calls_of
calls_of-append k n [] ss = omega arith
calls_of-append k n (r ∷ rs) ss = omega (arith, calls_of-append k n rs ss)

unfoldable times : ℕ → List ℕ → ℕ
times n [] = 0
times n (m ∷ ms) = (if m == n then 1 else 0) + times n ms

times-append : (n : ℕ) (ms ls : List ℕ) → times n (ms ++ ls) ≡ times n ms + times n ls
unfolding times
times-append n [] ls = omega arith
times-append n (m ∷ ms) ls = omega (arith, times-append n ms ls)

times-snoc :
    (n m : ℕ) (ls : List ℕ) → times n (ls ++ m ∷ []) ≡ times n ls + (if m == n then 1 else 0)
unfolding times
times-snoc n m ls = omega (arith, times-append n ls (m ∷ []))

calls_of-rings :
    (k j : Kind) (n : ℕ) (fns : List ℕ)
    → calls_of k n (rings j fns) ≡ (if kind_eq j k then times n fns else 0)
unfolding calls_of times
calls_of-rings k j n [] = ground arith
calls_of-rings k j n (m ∷ fns) = ground (arith, calls_of-rings k j n fns)

-- Whether callbacks of a kind are called, by the error.
abbrev pub fires : {E : Type 0} → Kind → Option E → Bool
fires on_then none = true
fires on_catch (some _) = true
fires on_finally _ = true
fires _ _ = false

-- The callbacks of a kind that wait.
abbrev waiting : Kind → List ℕ → List ℕ → List ℕ → List ℕ
waiting on_then a b c = a
waiting on_catch a b c = b
waiting on_finally a b c = c

none_waiting : (k : Kind) (n : ℕ) → times n (waiting k [] [] []) ≡ 0
unfolding times
none_waiting on_then n = refl
none_waiting on_catch n = refl
none_waiting on_finally n = refl

module _ {U E : Type 0} where
  -- How often a callback is registered.
  unfoldable pub registered : Kind → ℕ → List (Op U E) → ℕ
  registered k n [] = 0
  registered k n (resolves u e ∷ ops) = registered k n ops
  registered k n (registers j m ∷ ops) =
      (if kind_eq j k && m == n then 1 else 0) + registered k n ops

  -- What the first `returns` gives.
  unfoldable pub resolution : List (Op U E) → Option (Outcome U E)
  resolution [] = none
  resolution (resolves u e ∷ ops) = some (record { output = u; err = e })
  resolution (registers j m ∷ ops) = resolution ops

  abbrev done : U → Option E → List ℕ → List ℕ → List ℕ → Future U E
  done u e a b c = record {
    result = some (record { output = u; err = e });
    then_fns = a;
    catch_fns = b;
    finally_fns = c;
  }

  abbrev open_future : List ℕ → List ℕ → List ℕ → Future U E
  open_future a b c = record { result = none; then_fns = a; catch_fns = b; finally_fns = c }

  calls_done :
      (k : Kind) (n : ℕ) (u : U) (e : Option E) (ops : List (Op U E)) (a b c : List ℕ)
      → calls_of k n (run_ops ops (done u e a b c)).0
        ≡ (if fires k e then registered k n ops else 0)
  unfolding run_ops apply_op returns add_then add_catch add_finally calls_of registered
  calls_done k n u e [] a b c = ground arith
  calls_done k n u e (resolves v x ∷ ops) a b c = calls_done k n u e ops a b c
  calls_done k n u none (registers on_then m ∷ ops) a b c =
      ground (arith, calls_done k n u none ops a b c)
  calls_done k n u none (registers on_catch m ∷ ops) a b c =
      ground (arith, calls_done k n u none ops a (b ++ m ∷ []) c)
  calls_done k n u none (registers on_finally m ∷ ops) a b c =
      ground (arith, calls_done k n u none ops a b c)
  calls_done k n u (some x) (registers on_then m ∷ ops) a b c =
      ground (arith, calls_done k n u (some x) ops (a ++ m ∷ []) b c)
  calls_done k n u (some x) (registers on_catch m ∷ ops) a b c =
      ground (arith, calls_done k n u (some x) ops a b c)
  calls_done k n u (some x) (registers on_finally m ∷ ops) a b c =
      ground (arith, calls_done k n u (some x) ops a b c)

  -- The calls of the `returns` that resolves a future.
  calls_settled :
      (k : Kind) (n : ℕ) (e : Option E) (f : Future U E)
      → calls_of k n (settled_rings e f ++ rings on_finally f.finally_fns)
        ≡ (if fires k e then times n (waiting k f.then_fns f.catch_fns f.finally_fns) else 0)
  unfolding settled_rings
  calls_settled k n none f =
      calls_of-append k n (rings on_then f.then_fns) (rings on_finally f.finally_fns)
      ∙ rw (calls_of-rings k on_then n f.then_fns, calls_of-rings k on_finally n f.finally_fns)
          (by_kind k)
    where
      by_kind :
          (k : Kind)
          → (if kind_eq on_then k then times n f.then_fns else 0)
              + (if kind_eq on_finally k then times n f.finally_fns else 0)
            ≡ (if fires {E = E} k none
                then times n (waiting k f.then_fns f.catch_fns f.finally_fns)
                else 0)
      by_kind on_then = omega arith
      by_kind on_catch = omega arith
      by_kind on_finally = omega arith
  calls_settled k n (some x) f =
      calls_of-append k n (rings on_catch f.catch_fns) (rings on_finally f.finally_fns)
      ∙ rw (calls_of-rings k on_catch n f.catch_fns, calls_of-rings k on_finally n f.finally_fns)
          (by_kind k)
    where
      by_kind :
          (k : Kind)
          → (if kind_eq on_catch k then times n f.catch_fns else 0)
              + (if kind_eq on_finally k then times n f.finally_fns else 0)
            ≡ (if fires k (some x)
                then times n (waiting k f.then_fns f.catch_fns f.finally_fns)
                else 0)
      by_kind on_then = omega arith
      by_kind on_catch = omega arith
      by_kind on_finally = omega arith

  -- The calls that are expected of a future with waiting callbacks.
  abbrev expected : Kind → ℕ → Option (Outcome U E) → ℕ → ℕ
  expected k n none m = 0
  expected k n (some o) m = if fires k o.err then m else 0

  one_more :
      (k j : Kind) (n m : ℕ) (a b c : List ℕ) (o : Option (Outcome U E)) (rest : ℕ)
      → expected k n o (
          times n (
            waiting k
              (if kind_eq j on_then then a ++ m ∷ [] else a)
              (if kind_eq j on_catch then b ++ m ∷ [] else b)
              (if kind_eq j on_finally then c ++ m ∷ [] else c))
          + rest)
        ≡ expected k n o
            (times n (waiting k a b c) + ((if kind_eq j k && m == n then 1 else 0) + rest))
  one_more k j n m a b c none rest = refl
  one_more k j n m a b c (some o) rest = ap (λ i. if fires k o.err then i else 0) (counted k j)
    where
      counted :
          (k j : Kind)
          → times n (
                waiting k
                  (if kind_eq j on_then then a ++ m ∷ [] else a)
                  (if kind_eq j on_catch then b ++ m ∷ [] else b)
                  (if kind_eq j on_finally then c ++ m ∷ [] else c))
              + rest
            ≡ times n (waiting k a b c) + ((if kind_eq j k && m == n then 1 else 0) + rest)
      counted on_then on_then = omega (arith, times-snoc n m a)
      counted on_then on_catch = omega arith
      counted on_then on_finally = omega arith
      counted on_catch on_then = omega arith
      counted on_catch on_catch = omega (arith, times-snoc n m b)
      counted on_catch on_finally = omega arith
      counted on_finally on_then = omega arith
      counted on_finally on_catch = omega arith
      counted on_finally on_finally = omega (arith, times-snoc n m c)

  calls_open :
      (k : Kind) (n : ℕ) (ops : List (Op U E)) (a b c : List ℕ)
      → calls_of k n (run_ops ops (open_future a b c)).0
        ≡ expected k n (resolution ops) (times n (waiting k a b c) + registered k n ops)
  unfolding run_ops apply_op returns add_then add_catch add_finally calls_of registered resolution
  calls_open k n [] a b c = refl
  calls_open k n (resolves u e ∷ ops) a b c =
      calls_of-append k n (settled_rings e (open_future a b c) ++ rings on_finally c)
        (run_ops ops (done u e a b c)).0
      ∙ rw (calls_settled k n e (open_future a b c), calls_done k n u e ops a b c) (ground arith)
  calls_open k n (registers on_then m ∷ ops) a b c =
      calls_open k n ops (a ++ m ∷ []) b c
      ∙ one_more k on_then n m a b c (resolution ops) (registered k n ops)
  calls_open k n (registers on_catch m ∷ ops) a b c =
      calls_open k n ops a (b ++ m ∷ []) c
      ∙ one_more k on_catch n m a b c (resolution ops) (registered k n ops)
  calls_open k n (registers on_finally m ∷ ops) a b c =
      calls_open k n ops a b (c ++ m ∷ [])
      ∙ one_more k on_finally n m a b c (resolution ops) (registered k n ops)

  -- Over any operations on a new future, a callback is called as often as it was registered,
  -- before or after the result, where the future has a result and that fits its kind: no error
  -- for Then, an error for Catch, either for Finally; else it is not called.
  pub run_ops-calls :
      (k : Kind) (n : ℕ) (ops : List (Op U E))
      → calls_of k n (run_ops ops new_future).0 ≡ elim (resolution ops) [
        | none ↦ 0
        | some o ↦ if fires k o.err then registered k n ops else 0
      ]
  unfolding new_future times
  run_ops-calls k n ops = calls_open k n ops [] [] [] ∙ by_resolution (resolution ops)
    where
      by_resolution :
          (o : Option (Outcome U E))
          → expected k n o (times n (waiting k [] [] []) + registered k n ops)
            ≡ elim o [ none ↦ 0 | some o ↦ if fires k o.err then registered k n ops else 0 ]
      by_resolution none = refl
      by_resolution (some o) =
          ap (λ i. if fires k o.err then i else 0) (omega (arith, none_waiting k n))
