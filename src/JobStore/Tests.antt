-- ===== src/JobStore/Tests.antt =====
-- A run of typedhandler_job_store.go.
use allino.Base.{◌≡◌, refl, [], ◌∷◌, some}
use allino.Base.Bytes.{codes}
use allino.JobIds.{atoi, number, digits}
use allino.JobStore.{job_status_code, job_status_codes, known_code}

codes_run : job_status_codes (codes "done" ∷ codes "3" ∷ []) ≡ some (2 ∷ 3 ∷ [])
unfolding job_status_codes job_status_code known_code atoi number digits
codes_run = refl
