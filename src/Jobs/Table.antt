-- ===== src/Jobs/Table.antt =====
-- The tables of typedhandler_job_sql.go, and the statements that change `executions` with the
-- triggers they fire. Times are nanoseconds since the epoch, NULL is `none`.
use allino.Base.{
  ℕ, ◌+◌, ◌-◌, ◌==◌, Bool, false, ◌&&◌, ◌||◌, not, List, [], ◌∷◌, ◌++◌, map, Option, none, some,
  if◌then◌else◌, ltb,
}
use allino.Base.Bytes.{Bytes, bytes_eq, codes}
use allino.Base.Int.{ℤ}

pub data Status : Type 0 where
  queued leased done error : Status

abbrev pub status_code : Status → ℕ
status_code queued = 0
status_code leased = 1
status_code done = 2
status_code error = 3

abbrev pub status_eq : Status → Status → Bool
status_eq a b = status_code a == status_code b

pub record JobMeta : Type 0 where
  pub version : Bytes
  pub status : Status
  pub parent_id : Bytes
  pub root_id : Bytes
  pub ttl : Option ℕ
  pub priority : ℤ

-- A row of `executions`.
pub record Row : Type 0 where
  pub id : ℕ
  pub key : Bytes
  pub handler : Bytes
  pub version : Bytes
  pub status : Status
  pub parent_id : Bytes
  pub root_id : Bytes
  pub input : Option Bytes
  pub output : Option Bytes
  pub err : Option Bytes
  pub retry_count : Option ℕ
  pub priority : ℤ
  pub ttl : Option ℕ
  pub run_at : ℕ
  pub created_at : ℕ
  pub updated_at : ℕ
  pub leased_until : Option ℕ

-- A row of `executions_results`.
pub record ResultRow : Type 0 where
  pub key : Bytes
  pub handler : Bytes
  pub version : Bytes
  pub status : Status
  pub parent_id : Bytes
  pub root_id : Bytes
  pub ttl : Option ℕ
  pub input : Option Bytes
  pub output : Option Bytes
  pub err : Option Bytes
  pub created_at : ℕ
  pub updated_at : ℕ

-- A row of `execution_counts`.
pub record Count : Type 0 where
  pub root_id : Bytes
  pub status : Status
  pub count : ℕ

-- The database, with `lastDequeuedId` of the strategy, where -1 is `none`.
pub record Db : Type 0 where
  pub executions : List Row
  pub results : List ResultRow
  pub counts : List Count
  pub next_id : ℕ
  pub last_dequeued : Option ℕ

-- The root under which the triggers count every row.
abbrev pub star : Bytes
star = codes "*"

-- `INSERT … VALUES (root, st, 1) ON CONFLICT DO UPDATE SET count = count + 1`.
unfoldable pub bump : Bytes → Status → List Count → List Count
bump root st [] = record { root_id = root; status = st; count = 1 } ∷ []
bump root st (c ∷ cs) =
    if bytes_eq c.root_id root && status_eq c.status st
    then record c { count = c.count + 1 } ∷ cs
    else c ∷ bump root st cs

-- `UPDATE execution_counts SET count = count - 1 WHERE …`. SQL would go on below 0, where this stops.
unfoldable pub unbump : Bytes → Status → List Count → List Count
unbump root st [] = []
unbump root st (c ∷ cs) =
    if bytes_eq c.root_id root && status_eq c.status st
    then record c { count = c.count - 1 } ∷ cs
    else c ∷ unbump root st cs

unfoldable pub after_insert : Row → List Count → List Count
unfolding bump
after_insert r cs = bump r.root_id r.status (bump star r.status cs)

unfoldable pub after_update : Row → Row → List Count → List Count
unfolding bump unbump
after_update old new cs =
    if not (status_eq old.status new.status) || not (bytes_eq old.root_id new.root_id)
    then bump new.root_id new.status
        (bump star new.status (unbump old.root_id old.status (unbump star old.status cs)))
    else cs

unfoldable pub after_delete : Row → List Count → List Count
unfolding unbump
after_delete r cs = unbump r.root_id r.status (unbump star r.status cs)

-- What a statement does to one row, and the triggers of the rows in turn.
abbrev pub change : (Row → Bool) → (Row → Row) → Row → Row
change p f r = if p r then f r else r

unfoldable pub update_counts : (Row → Bool) → (Row → Row) → List Row → List Count → List Count
update_counts p f [] cs = cs
update_counts p f (r ∷ rs) cs = update_counts p f rs (if p r then after_update r (f r) cs else cs)

unfoldable pub keep_rows : (Row → Bool) → List Row → List Row
keep_rows p [] = []
keep_rows p (r ∷ rs) = let rest = keep_rows p rs in if p r then rest else r ∷ rest

unfoldable pub delete_counts : (Row → Bool) → List Row → List Count → List Count
delete_counts p [] cs = cs
delete_counts p (r ∷ rs) cs = delete_counts p rs (if p r then after_delete r cs else cs)

-- `UPDATE executions SET f WHERE p`.
unfoldable pub update_rows : (Row → Bool) → (Row → Row) → Db → Db
update_rows p f db = record db {
  executions = map (change p f) db.executions;
  counts = update_counts p f db.executions db.counts;
}

-- `DELETE FROM executions WHERE p`.
unfoldable pub delete_rows : (Row → Bool) → Db → Db
delete_rows p db = record db {
  executions = keep_rows p db.executions;
  counts = delete_counts p db.executions db.counts;
}

-- `INSERT INTO executions`, of a key that is not there. The row takes the next id.
unfoldable pub insert_row : Row → Db → Db
insert_row r db = record db {
  executions = db.executions ++ record r { id = db.next_id } ∷ [];
  counts = after_insert r db.counts;
  next_id = db.next_id + 1;
}

unfoldable pub find_row : Bytes → List Row → Option Row
find_row key [] = none
find_row key (r ∷ rs) = if bytes_eq r.key key then some r else find_row key rs

unfoldable pub find_result : Bytes → List ResultRow → Option ResultRow
find_result key [] = none
find_result key (r ∷ rs) = if bytes_eq r.key key then some r else find_result key rs

-- `a < b` of a column that may be NULL.
abbrev pub before : Option ℕ → ℕ → Bool
before none now = false
before (some t) now = ltb t now
