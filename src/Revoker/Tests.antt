-- ===== src/Revoker/Tests.antt =====
-- Runs of ext/revoker/revoker.go, and instances of its theorems.
use allino.Base.{ℕ, ◌≡◌, refl, [], ◌∷◌, arith}
use allino.Base.Bytes.{Bytes, codes}
use allino.Trie.{new_trie}
use allino.Revoker.{Revoker, RevokeBucket, prefix, revoke, before_star, new_revoker, is_revoked}
use allino.Revoker.Verdict.{candidates, verdict, is_revoked-verdict}
use allino.Revoker.Rotation.{new_revoker-IsRevoker, rotations, rotations-is_revoked}

abbrev fresh : Revoker
fresh = new_revoker 0

-- Ten seconds, in nanoseconds.
abbrev ten : ℕ
ten = 10_000_000_000

revoke_run : revoke (codes "user:7*") ≡ prefix (codes "user:7")
unfolding revoke before_star
revoke_run = refl

is_revoked-verdict_example :
    is_revoked (codes "user:7") 3 fresh ≡ verdict 3 (candidates (codes "user:7") fresh)
is_revoked-verdict_example =
    is_revoked-verdict (codes "user:7") 3 fresh (new_revoker-IsRevoker 0).valid

rotations-is_revoked_example :
    is_revoked (codes "user:7") 3 (rotations (5 ∷ 6 ∷ []) fresh)
    ≡ is_revoked (codes "user:7") 3 fresh
unfolding new_revoker
rotations-is_revoked_example =
    rotations-is_revoked (5 ∷ 6 ∷ []) (codes "user:7") 3 fresh (new_revoker-IsRevoker 0)
      (omega arith)

abbrev user : Bytes
user = codes "user:"

abbrev first_bucket : RevokeBucket
first_bucket = record { since = 0; trie = new_trie }
