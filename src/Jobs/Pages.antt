-- ===== src/Jobs/Pages.antt =====
-- The pages of `List` of typedhandler_job_sql.go.
use allino.Base.{
  ℕ, zero, suc, ◌+◌, ◌≤◌, ◌≡◌, refl, ap, ◌∙◌, Bool, ◌&&◌, List, [], ◌∷◌, ◌++◌, if◌then◌else◌,
  length, take, drop, ltb, arith, Bool-cases, inl, inr, sym,
}
use allino.Base.Int.{pos}
use allino.Jobs.Table.{Row, Db}
use allino.Jobs.Outcome.{JobInfo}
use allino.Jobs.Listing.{is_listed, row_info, place_newest, newest_first, list}

-- No job is newer than a time.
abbrev pub NoneNewer : ℕ → List JobInfo → Type 0
NoneNewer t [] = Unit
NoneNewer t (j ∷ js) = (j.created_at ≤ t) × NoneNewer t js

abbrev pub IsNewestFirst : List JobInfo → Type 0
IsNewestFirst [] = Unit
IsNewestFirst (j ∷ js) = NoneNewer j.created_at js × IsNewestFirst js

NoneNewer-trans : (s t : ℕ) (js : List JobInfo) → s ≤ t → NoneNewer s js → NoneNewer t js
NoneNewer-trans s t [] le o = tt
NoneNewer-trans s t (j ∷ js) le (o, os) = (omega (arith, o, le), NoneNewer-trans s t js le os)

NoneNewer-place_newest :
    (t : ℕ) (j : JobInfo) (js : List JobInfo)
    → j.created_at ≤ t
    → NoneNewer t js
    → NoneNewer t (place_newest j js)
unfolding place_newest
NoneNewer-place_newest t j [] le o = (le, tt)
NoneNewer-place_newest t j (k ∷ ks) le (o, os) =
    ground (arith, le, o, os, NoneNewer-place_newest t j ks le os)

place_newest-IsNewestFirst :
    (j : JobInfo) (js : List JobInfo) → IsNewestFirst js → IsNewestFirst (place_newest j js)
unfolding place_newest
place_newest-IsNewestFirst j [] s = (tt, tt)
place_newest-IsNewestFirst j (k ∷ ks) (o, s) = elim (Bool-cases (ltb j.created_at k.created_at)) [
  | inl e ↦ rw e (
    NoneNewer-place_newest k.created_at j ks (ground (arith, e)) o,
    place_newest-IsNewestFirst j ks s,
  )
  | inr e ↦ rw e (
    (ground (arith, e), NoneNewer-trans k.created_at j.created_at ks (ground (arith, e)) o),
    (o, s),
  )
]

newest_first-IsNewestFirst :
    (statuses : List ℕ) (rs : List Row) → IsNewestFirst (newest_first statuses rs)
unfolding newest_first
newest_first-IsNewestFirst statuses [] = tt
newest_first-IsNewestFirst statuses (r ∷ rs) =
    let s = newest_first-IsNewestFirst statuses rs in
    elim (Bool-cases (is_listed statuses r)) [
      | inl e ↦ rw e (place_newest-IsNewestFirst (row_info r) (newest_first statuses rs) s)
      | inr e ↦ rw e s
    ]

drop-IsNewestFirst : (n : ℕ) (js : List JobInfo) → IsNewestFirst js → IsNewestFirst (drop n js)
drop-IsNewestFirst zero js s = s
drop-IsNewestFirst (suc n) [] s = tt
drop-IsNewestFirst (suc n) (j ∷ js) (o, s) = drop-IsNewestFirst n js s

NoneNewer-take : (t n : ℕ) (js : List JobInfo) → NoneNewer t js → NoneNewer t (take n js)
NoneNewer-take t zero js o = tt
NoneNewer-take t (suc n) [] o = tt
NoneNewer-take t (suc n) (j ∷ js) (o, os) = (o, NoneNewer-take t n js os)

take-IsNewestFirst : (n : ℕ) (js : List JobInfo) → IsNewestFirst js → IsNewestFirst (take n js)
take-IsNewestFirst zero js s = tt
take-IsNewestFirst (suc n) [] s = tt
take-IsNewestFirst (suc n) (j ∷ js) (o, s) =
    (NoneNewer-take j.created_at n js o, take-IsNewestFirst n js s)

take-nil : (n : ℕ) → take {A = JobInfo} n [] ≡ []
take-nil zero = refl
take-nil (suc n) = refl

drop-nil : (n : ℕ) → drop {A = JobInfo} n [] ≡ []
drop-nil zero = refl
drop-nil (suc n) = refl

take-suc : (n m : ℕ) (js : List JobInfo) → take (suc (n + m)) js ≡ take (suc n + m) js
take-suc n m js = ap (λ k. take k js) {x = suc (n + m)} {y = suc n + m} (omega arith)

drop-suc : (n m : ℕ) (js : List JobInfo) → drop (suc (n + m)) js ≡ drop (suc n + m) js
drop-suc n m js = ap (λ k. drop k js) {x = suc (n + m)} {y = suc n + m} (omega arith)

take-pages_at_start :
    (n m : ℕ) (js : List JobInfo) → take n js ++ take m (drop n js) ≡ take (n + m) js
take-pages_at_start zero m js = ap (λ k. take k js) (omega arith)
take-pages_at_start (suc n) m [] = take-nil m ∙ sym (take-nil (suc n + m))
take-pages_at_start (suc n) m (j ∷ js) =
    ap (◌∷◌ j) (take-pages_at_start n m js) ∙ take-suc n m (j ∷ js)

drop-drop : (i n : ℕ) (js : List JobInfo) → drop (i + n) js ≡ drop n (drop i js)
drop-drop zero n js = ap (λ k. drop k js) (omega arith)
drop-drop (suc i) n [] = drop-nil (suc i + n) ∙ sym (drop-nil n)
drop-drop (suc i) n (j ∷ js) = sym (drop-suc i n (j ∷ js)) ∙ drop-drop i n js

take-pages :
    (n m i : ℕ) (js : List JobInfo)
    → take n (drop i js) ++ take m (drop (i + n) js) ≡ take (n + m) (drop i js)
take-pages n m i js = rw (drop-drop i n js) (take-pages_at_start n m (drop i js))

-- How many jobs have a property.
unfoldable pub count : (JobInfo → Bool) → List JobInfo → ℕ
count p [] = 0
count p (j ∷ js) = (if p j then 1 else 0) + count p js

-- How many rows with a listed status have it.
unfoldable pub count_rows : List ℕ → (JobInfo → Bool) → List Row → ℕ
count_rows statuses p [] = 0
count_rows statuses p (r ∷ rs) =
    (if is_listed statuses r && p (row_info r) then 1 else 0) + count_rows statuses p rs

count-place_newest :
    (p : JobInfo → Bool) (j : JobInfo) (js : List JobInfo)
    → count p (place_newest j js) ≡ (if p j then 1 else 0) + count p js
unfolding count place_newest
count-place_newest p j [] = refl
count-place_newest p j (k ∷ ks) = ground (arith, count-place_newest p j ks)

count-newest_first :
    (statuses : List ℕ) (p : JobInfo → Bool) (rs : List Row)
    → count p (newest_first statuses rs) ≡ count_rows statuses p rs
unfolding count count_rows newest_first
count-newest_first statuses p [] = refl
count-newest_first statuses p (r ∷ rs) = ground (
  arith,
  count-newest_first statuses p rs,
  count-place_newest p (row_info r) (newest_first statuses rs),
)

length-place_newest :
    (j : JobInfo) (js : List JobInfo) → length (place_newest j js) ≡ suc (length js)
unfolding place_newest
length-place_newest j [] = refl
length-place_newest j (k ∷ ks) = ground (arith, length-place_newest j ks)

length-newest_first :
    (statuses : List ℕ) (rs : List Row) → length (newest_first statuses rs) ≤ length rs
unfolding newest_first
length-newest_first statuses [] = omega arith
length-newest_first statuses (r ∷ rs) = ground (
  arith,
  length-newest_first statuses rs,
  length-place_newest (row_info r) (newest_first statuses rs),
)

take-all : (n : ℕ) (js : List JobInfo) → length js ≤ n → take n js ≡ js
take-all zero [] le = refl
take-all zero (j ∷ js) le = absurd (omega (arith, le))
take-all (suc n) [] le = refl
take-all (suc n) (j ∷ js) le = ap (◌∷◌ j) (take-all n js (omega (arith, le)))

-- List with a positive limit and an offset that is not negative gives its jobs newest first; a
-- page and the page that follows it are together the page of both limits; and the page from the
-- start with a limit greater than the number of rows holds, for every property, as many jobs
-- with the property as there are rows with it and one of the statuses, or any status where none
-- is given.
pub list-pages :
    (statuses : List ℕ) (n m i : ℕ) (p : JobInfo → Bool) (db : Db)
    → IsNewestFirst (list statuses (pos (suc n)) (pos i) db)
      × (list statuses (pos (suc n)) (pos i) db ++ list statuses (pos (suc m)) (pos (i + suc n)) db
          ≡ list statuses (pos (suc (n + suc m))) (pos i) db)
      × (count p (list statuses (pos (suc (length db.executions))) (pos 0) db)
          ≡ count_rows statuses p db.executions)
unfolding list
list-pages statuses n m i p db =
    let js = newest_first statuses db.executions in
    let sum : take (suc n + suc m) (drop i js) ≡ take (suc (n + suc m)) (drop i js) =
      sym (take-suc n (suc m) (drop i js)) in
    (
      take-IsNewestFirst (suc n) (drop i js)
          (drop-IsNewestFirst i js (newest_first-IsNewestFirst statuses db.executions)),
      take-pages (suc n) (suc m) i js ∙ sum,
      rw
          (take-all (suc (length db.executions)) js
            (omega (arith, length-newest_first statuses db.executions)))
          (count-newest_first statuses p db.executions),
    )
