-- ===== src/JobSet/Tests.antt =====
-- A run of typedhandler_job_set.go.
use allino.Base.{◌≡◌, refl, [], ◌∷◌}
use allino.Base.Bytes.{codes}
use allino.JobSet.{Jobset, diff}

abbrev handlers : Jobset
handlers = record { names = codes "mail" ∷ codes "scan" ∷ [] }

abbrev locked : Jobset
locked = record { names = codes "scan" ∷ [] }

diff_run : diff handlers (locked ∷ []) ≡ codes "mail" ∷ []
unfolding diff
diff_run = refl
