-- ===== src/Jobs/Keys.antt =====
-- The keys and ids of `executions` in typedhandler_job_sql.go: UNIQUE and AUTOINCREMENT.
use allino.Base.{
  ℕ, suc, ◌+◌, ◌≤◌, ◌≡◌, refl, Bool, false, List, [], ◌∷◌, ◌++◌, map, none, some, if◌then◌else◌,
  arith, Bool-cases, inl, inr,
}
use allino.Base.Bytes.{Bytes, bytes_eq, bytes_eq_comm}
use allino.Jobs.Table.{Row, change, keep_rows, find_row}

-- A change that leaves key and id alone.
abbrev pub KeepsKey : (Row → Row) → Type 0
KeepsKey f = (r : Row) → ((f r).key ≡ r.key) × ((f r).id ≡ r.id)

abbrev pub AreKeyed : List Row → Type 0
AreKeyed [] = Unit
AreKeyed (r ∷ rs) = (find_row r.key rs ≡ none) × AreKeyed rs

-- The ids rise from `lo` and stay below `hi`.
abbrev pub AreNumbered : ℕ → ℕ → List Row → Type 0
AreNumbered lo hi [] = lo ≤ hi
AreNumbered lo hi (r ∷ rs) = (lo ≤ r.id) × AreNumbered (suc r.id) hi rs

pub change_key :
    (p : Row → Bool) (f : Row → Row) (r : Row) → KeepsKey f → (change p f r).key ≡ r.key
change_key p f r h = elim (Bool-cases (p r)) [ inl e ↦ rw e ((h r).0) | inr e ↦ rw e ]

pub change_id : (p : Row → Bool) (f : Row → Row) (r : Row) → KeepsKey f → (change p f r).id ≡ r.id
change_id p f r h = elim (Bool-cases (p r)) [ inl e ↦ rw e ((h r).1) | inr e ↦ rw e ]

-- A row is found as it was changed.
pub find_row-map :
    (p : Row → Bool) (f : Row → Row) (key : Bytes) (rs : List Row)
    → KeepsKey f
    → find_row key (map (change p f) rs)
      ≡ elim (find_row key rs) [ none ↦ none | some r ↦ some (change p f r) ]
unfolding find_row
find_row-map p f key [] h = refl
find_row-map p f key (r ∷ rs) h = elim (Bool-cases (bytes_eq r.key key)) [
  | inl e ↦ rw (change_key p f r h, e)
  | inr e ↦ rw (change_key p f r h, e) (find_row-map p f key rs h)
]

pub find_row-append :
    (key : Bytes) (rs : List Row) (q : Row)
    → find_row key rs ≡ none
    → find_row key (rs ++ q ∷ []) ≡ (if bytes_eq q.key key then some q else none)
unfolding find_row
find_row-append key [] q h = refl
find_row-append key (r ∷ rs) q h = ground (arith, find_row-append key rs q)

pub find_row-append_some :
    (key : Bytes) (rs : List Row) (q r : Row)
    → find_row key rs ≡ some r
    → find_row key (rs ++ q ∷ []) ≡ some r
unfolding find_row
find_row-append_some key [] q r h = cc
find_row-append_some key (s ∷ rs) q r h = ground (arith, find_row-append_some key rs q r)

pub find_row-keep :
    (p : Row → Bool) (key : Bytes) (rs : List Row)
    → find_row key rs ≡ none
    → find_row key (keep_rows p rs) ≡ none
unfolding find_row keep_rows
find_row-keep p key [] h = refl
find_row-keep p key (r ∷ rs) h = ground (arith, find_row-keep p key rs)

pub map-AreKeyed :
    (p : Row → Bool) (f : Row → Row) (rs : List Row)
    → KeepsKey f
    → AreKeyed rs
    → AreKeyed (map (change p f) rs)
map-AreKeyed p f [] h k = tt
map-AreKeyed p f (r ∷ rs) h k =
    (rw (change_key p f r h, find_row-map p f r.key rs h, k.0), map-AreKeyed p f rs h k.1)

pub keep_rows-AreKeyed : (p : Row → Bool) (rs : List Row) → AreKeyed rs → AreKeyed (keep_rows p rs)
unfolding keep_rows
keep_rows-AreKeyed p [] k = tt
keep_rows-AreKeyed p (r ∷ rs) k =
    ground (arith, keep_rows-AreKeyed p rs k.1, find_row-keep p r.key rs k.0)

find_row-none :
    (key : Bytes) (r : Row) (rs : List Row)
    → find_row key (r ∷ rs) ≡ none
    → (bytes_eq r.key key ≡ false) × (find_row key rs ≡ none)
unfolding find_row
find_row-none key r rs h = (ground arith, ground arith)

pub append-AreKeyed :
    (rs : List Row) (q : Row) → find_row q.key rs ≡ none → AreKeyed rs → AreKeyed (rs ++ q ∷ [])
append-AreKeyed [] q h k = (unfold find_row in refl, tt)
append-AreKeyed (r ∷ rs) q h k =
    let (other, free) = find_row-none q.key r rs h in
    (
      rw (find_row-append r.key rs q k.0, bytes_eq_comm q.key r.key, other),
      append-AreKeyed rs q free k.1,
    )

pub map-AreNumbered :
    (p : Row → Bool) (f : Row → Row) (lo hi : ℕ) (rs : List Row)
    → KeepsKey f
    → AreNumbered lo hi rs
    → AreNumbered lo hi (map (change p f) rs)
map-AreNumbered p f lo hi [] h n = n
map-AreNumbered p f lo hi (r ∷ rs) h n =
    rw (change_id p f r h) (n.0, map-AreNumbered p f (suc r.id) hi rs h n.1)

pub AreNumbered-le : (lo hi : ℕ) (rs : List Row) → AreNumbered lo hi rs → lo ≤ hi
AreNumbered-le lo hi [] n = n
AreNumbered-le lo hi (r ∷ rs) n = omega (arith, AreNumbered-le (suc r.id) hi rs n.1)

AreNumbered-from :
    (lo lo' hi : ℕ) (rs : List Row) → lo' ≤ lo → AreNumbered lo hi rs → AreNumbered lo' hi rs
AreNumbered-from lo lo' hi [] h n = omega arith
AreNumbered-from lo lo' hi (r ∷ rs) h n = (omega arith, n.1)

pub keep_rows-AreNumbered :
    (p : Row → Bool) (lo hi : ℕ) (rs : List Row)
    → AreNumbered lo hi rs
    → AreNumbered lo hi (keep_rows p rs)
unfolding keep_rows
keep_rows-AreNumbered p lo hi [] n = n
keep_rows-AreNumbered p lo hi (r ∷ rs) n = elim (Bool-cases (p r)) [
  | inl e ↦ rw e (
      AreNumbered-from (suc r.id) lo hi (keep_rows p rs) (omega arith)
        (keep_rows-AreNumbered p (suc r.id) hi rs n.1))
  | inr e ↦ rw e (n.0, keep_rows-AreNumbered p (suc r.id) hi rs n.1)
]

pub append-AreNumbered :
    (lo hi : ℕ) (rs : List Row) (q : Row)
    → q.id ≡ hi
    → AreNumbered lo hi rs
    → AreNumbered lo (hi + 1) (rs ++ q ∷ [])
append-AreNumbered lo hi [] q e n = omega arith
append-AreNumbered lo hi (r ∷ rs) q e n = (n.0, append-AreNumbered (suc r.id) hi rs q e n.1)
