-- ===== src/Functions/Paths.antt =====
-- The order in which typedhandler.go registers the functions: `comparePaths` and `getPriority`.
use allino.Base.{
  ℕ, ◌≡◌, refl, ◌==◌, Bool, true, false, not, ◌||◌, ◌&&◌, List, [], ◌∷◌, if◌then◌else◌, ltb, map,
  arith, ◌↔◌,
}
use allino.Base.Bytes.{Bytes}
use allino.Base.Split.{split}

abbrev slash : ℕ
slash = 47

-- `strings.Trim(p, "/")`.
unfoldable pub trim_front : Bytes → Bytes
trim_front [] = []
trim_front (c ∷ s) = if c == slash then trim_front s else c ∷ s

unfoldable pub trim_back : Bytes → Bytes
trim_back [] = []
trim_back (c ∷ s) = elim (trim_back s) [
  | [] ↦ if c == slash then [] else c ∷ []
  | d ∷ t ↦ c ∷ d ∷ t
]

unfoldable pub has_star : Bytes → Bool
has_star [] = false
has_star (c ∷ s) = c == 42 || has_star s

abbrev pub is_parameter : Bytes → Bool
is_parameter [] = false
is_parameter (c ∷ _) = c == 58

-- `getPriority`: a static segment before a parameter before a wildcard.
unfoldable pub get_priority : Bytes → ℕ
unfolding has_star
get_priority segment = if is_parameter segment then 1 else if has_star segment then 2 else 0

-- The priorities of the segments of a path.
unfoldable pub priorities : Bytes → List ℕ
unfolding get_priority trim_front trim_back
priorities path = map get_priority (split slash (trim_back (trim_front path)))

-- The loop of `comparePaths` over the priorities, and the longer path first where it finds no
-- difference.
unfoldable pub compare_scores : List ℕ → List ℕ → Bool
compare_scores [] [] = false
compare_scores [] (b ∷ bs) = false
compare_scores (a ∷ xs) [] = true
compare_scores (a ∷ xs) (b ∷ bs) = if a == b then compare_scores xs bs else ltb a b

unfoldable pub compare_paths : Bytes → Bytes → Bool
compare_paths p q = compare_scores (priorities p) (priorities q)

scores_irrefl : (xs : List ℕ) → compare_scores xs xs ≡ false
unfolding compare_scores
scores_irrefl [] = refl
scores_irrefl (x ∷ xs) = ground (arith, scores_irrefl xs)

scores_trans :
    (xs ys zs : List ℕ)
    → compare_scores xs ys ≡ true
    → compare_scores ys zs ≡ true
    → compare_scores xs zs ≡ true
unfolding compare_scores
scores_trans [] [] zs h k = cc
scores_trans [] (y ∷ ys) zs h k = cc
scores_trans (x ∷ xs) [] [] h k = cc
scores_trans (x ∷ xs) [] (z ∷ zs) h k = cc
scores_trans (x ∷ xs) (y ∷ ys) [] h k = refl
scores_trans (x ∷ xs) (y ∷ ys) (z ∷ zs) h k = ground (arith, scores_trans xs ys zs)

scores_tie :
    (xs ys : List ℕ) → compare_scores xs ys ≡ false → compare_scores ys xs ≡ false → xs ≡ ys
unfolding compare_scores
scores_tie [] [] h k = refl
scores_tie [] (y ∷ ys) h k = cc
scores_tie (x ∷ xs) [] h k = cc
scores_tie (x ∷ xs) (y ∷ ys) h k = ground (arith, scores_tie xs ys)

scores_same :
    (xs ys : List ℕ) → xs ≡ ys → not (compare_scores xs ys) && not (compare_scores ys xs) ≡ true
scores_same xs ys e = rw (e, scores_irrefl ys)

-- ComparePaths is an order for sorting: it is transitive, no path comes before itself, and
-- neither of two paths comes before the other exactly where their segments have the same
-- priorities.
pub compare_paths-order :
    (p q r : Bytes)
    → ((not (compare_paths p q && compare_paths q r) || compare_paths p r) ≡ true)
      × (compare_paths p p ≡ false)
      × ((not (compare_paths p q) && not (compare_paths q p) ≡ true)
          ↔ (priorities p ≡ priorities q))
unfolding compare_paths
compare_paths-order p q r = (
  ground (arith, scores_trans (priorities p) (priorities q) (priorities r)),
  scores_irrefl (priorities p),
  (
    λ t. scores_tie (priorities p) (priorities q) (ground arith) (ground arith),
    scores_same (priorities p) (priorities q),
  ),
)
