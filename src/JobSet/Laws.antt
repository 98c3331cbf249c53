-- ===== src/JobSet/Laws.antt =====
-- The set that typedhandler_job_set.go keeps, seen through `Contains` and `Len`.
use allino.Base.{
  ◌==◌, ◌≡◌, refl, ap, sym, ◌∙◌, inl, inr, true, false, not, ◌&&◌, ◌||◌, List, [], ◌∷◌, ◌++◌,
  length, arith, Bool-cases,
}
use allino.Base.Bytes.{Bytes, bytes_eq, bytes_eq_comm, eq_of_bytes_eq}
use allino.JobSet.{
  Jobset, member, add, without, remove, len, contains, total_len, in_any, outside, diff,
}

-- Every name once.
abbrev pub AreDistinct : List Bytes → Type 0
AreDistinct [] = Unit
AreDistinct (x ∷ xs) = (member x xs ≡ false) × AreDistinct xs

member-append :
    (v w : Bytes) (xs : List Bytes) → member v (xs ++ w ∷ []) ≡ member v xs || bytes_eq w v
unfolding member
member-append v w [] = ground arith
member-append v w (x ∷ xs) = ground (arith, member-append v w xs)

member-without :
    (v w : Bytes) (xs : List Bytes) → member v (without w xs) ≡ member v xs && not (bytes_eq w v)
unfolding member without
member-without v w [] = refl
member-without v w (x ∷ xs) = elim (Bool-cases (bytes_eq x w)) [
  | inl e ↦ rw (e, without) (rw (eq_of_bytes_eq x w e) (ground (arith, member-without v w xs)))
  | inr e ↦ elim (Bool-cases (bytes_eq x v)) [
    | inl f ↦
        let ne : bytes_eq w v ≡ false =
          ap (bytes_eq w) (sym (eq_of_bytes_eq x v f)) ∙ bytes_eq_comm w x ∙ e in
        rw (e, without) (rw (f, ne) refl)
    | inr f ↦ rw (e, without) (rw f (member-without v w xs))
  ]
]

append-AreDistinct :
    (v : Bytes) (xs : List Bytes)
    → member v xs ≡ false
    → AreDistinct xs
    → AreDistinct (xs ++ v ∷ [])
unfolding member
append-AreDistinct v [] m h = (refl, tt)
append-AreDistinct v (x ∷ xs) m h =
    let apart : (bytes_eq v x ≡ false) × (member v xs ≡ false) =
      ground (arith, bytes_eq_comm v x) in
    (member-append x v xs ∙ rw (h.0, apart.0) refl, append-AreDistinct v xs apart.1 h.1)

without-AreDistinct : (v : Bytes) (xs : List Bytes) → AreDistinct xs → AreDistinct (without v xs)
unfolding without
without-AreDistinct v [] h = tt
without-AreDistinct v (x ∷ xs) h = elim (Bool-cases (bytes_eq x v)) [
  | inl e ↦ rw e (without-AreDistinct v xs h.1)
  | inr e ↦ rw e (member-without x v xs ∙ rw h.0 refl, without-AreDistinct v xs h.1)
]

member-outside :
    (v : Bytes) (others : List Jobset) (xs : List Bytes)
    → member v (outside others xs) ≡ member v xs && not (in_any v others)
unfolding member outside
member-outside v others [] = refl
member-outside v others (x ∷ xs) =
    let rest = member-outside v others xs in
    elim (Bool-cases (in_any x others)) [
      | inl t ↦ elim (Bool-cases (bytes_eq x v)) [
        | inl e ↦
            let found : in_any v others ≡ true =
              ap (λ k. in_any k others) (sym (eq_of_bytes_eq x v e)) ∙ t in
            ground (arith, rest, found)
        | inr e ↦ ground (arith, rest)
      ]
      | inr f ↦ elim (Bool-cases (bytes_eq x v)) [
        | inl e ↦
            let missed : in_any v others ≡ false =
              ap (λ k. in_any k others) (sym (eq_of_bytes_eq x v e)) ∙ f in
            ground (arith, rest, missed)
        | inr e ↦ ground (arith, rest)
      ]
    ]

member-none : (v : Bytes) (xs : List Bytes) → length xs ≡ 0 → member v xs ≡ false
unfolding member
member-none v [] h = refl
member-none v (x ∷ xs) h = absurd (omega (arith, h))

-- Sets without a name contain nothing.
in_any-empty : (v : Bytes) (others : List Jobset) → total_len others ≡ 0 → in_any v others ≡ false
unfolding in_any total_len contains len
in_any-empty v [] h = refl
in_any-empty v (o ∷ os) h =
    rw (member-none v o.names (omega (arith, h)), in_any-empty v os (omega (arith, h))) refl

-- After Add a jobset contains the name added and what it contained before, and nothing else.
pub contains-add : (v w : Bytes) (s : Jobset) → contains v (add w s) ≡ contains v s || bytes_eq w v
unfolding contains add
contains-add v w s = elim (Bool-cases (member w s.names)) [
  | inl e ↦ elim (Bool-cases (bytes_eq w v)) [
    | inl f ↦
        let held : member v s.names ≡ true =
          ap (λ k. member k s.names) (sym (eq_of_bytes_eq w v f)) ∙ e in
        rw e (rw held refl)
    | inr f ↦ rw e (rw f (ground arith))
  ]
  | inr e ↦ rw e (member-append v w s.names)
]

-- After Remove a jobset contains what it contained before but the name removed.
pub contains-remove :
    (v w : Bytes) (s : Jobset) → contains v (remove w s) ≡ contains v s && not (bytes_eq w v)
unfolding contains remove
contains-remove v w s = member-without v w s.names

-- Diff holds exactly the names of the set that no other set contains, its early return for
-- empty sets included.
pub member-diff :
    (v : Bytes) (s : Jobset) (others : List Jobset)
    → member v (diff s others) ≡ contains v s && not (in_any v others)
unfolding diff contains
member-diff v s others = elim (Bool-cases (total_len others == 0)) [
  | inl e ↦ rw (e, in_any-empty v others (ground arith)) (ground arith)
  | inr e ↦ rw e (member-outside v others s.names)
]

pub add-AreDistinct : (v : Bytes) (s : Jobset) → AreDistinct s.names → AreDistinct (add v s).names
unfolding add
add-AreDistinct v s h = elim (Bool-cases (member v s.names)) [
  | inl e ↦ rw e h
  | inr e ↦ rw e (append-AreDistinct v s.names e h)
]

pub remove-AreDistinct :
    (v : Bytes) (s : Jobset) → AreDistinct s.names → AreDistinct (remove v s).names
unfolding remove
remove-AreDistinct v s h = without-AreDistinct v s.names h
