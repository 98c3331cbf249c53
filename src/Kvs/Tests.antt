-- ===== src/Kvs/Tests.antt =====
-- Runs of the key-value store, and instances of its theorems.
use allino.Base.{ℕ, ◌≡◌, refl, [], ◌∷◌, none, some}
use allino.Base.Bytes.{codes}
use allino.Kvs.{Table, get, select_pair, delete_key, new_sql_kvs, generic_get, panics}

abbrev stock : Table
stock = record { key = codes "a"; value = codes "1"; expires_at = some 10 } ∷ []

-- An expired pair is gone after the read.
expired_gone : get 11 (codes "a") stock ≡ (none, [])
unfolding get select_pair delete_key
expired_gone = refl

-- A value that is there makes a read of a new typed store panic.
nil_pool : (generic_get {T = ℕ} 5 (codes "a") (new_sql_kvs stock)).0 ≡ panics
unfolding generic_get new_sql_kvs get select_pair
nil_pool = refl
