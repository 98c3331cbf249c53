-- ===== src/Futures/Tests.antt =====
-- Runs of futures, and instances of their theorems.
use allino.Base.{ℕ, ◌≡◌, refl, List, [], ◌∷◌, none, some, ◌⊎◌}
use allino.Base.Bytes.{Bytes, codes}
use allino.Futures.{
  Op, resolves, registers, on_then, on_finally, Outcome, GoError, wraps, pending_error, Round,
  go_internal,
}
use allino.Futures.Callbacks.{registered}
use allino.Futures.Rounds.{AreRetries, EndsAt, go_internal-rounds}

-- A callback before and one after the result.
abbrev script : List (Op ℕ Bytes)
script = registers on_then 1 ∷ resolves 5 none ∷ registers on_finally 1 ∷ registers on_then 1 ∷ []

called_twice : registered on_then 1 script ≡ 2
unfolding registered
called_twice = refl

abbrev pending_round : Round ℕ
pending_round = record {
  output = 0;
  err = some (wraps (pending_error (codes "j")));
  wait_err = λ id. none;
}

abbrev last_round : Round ℕ
last_round = record { output = 6; err = none; wait_err = λ id. none }

abbrev rounds : List (Round ℕ)
rounds = pending_round ∷ last_round ∷ []

go_internal-rounds_example :
    (AreRetries 0 rounds × (go_internal 0 rounds ≡ none))
    ⊎ ((o : Outcome ℕ GoError) × (go_internal 0 rounds ≡ some o) × EndsAt 0 rounds o)
go_internal-rounds_example = go_internal-rounds 0 rounds
