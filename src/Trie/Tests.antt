-- ===== src/Trie/Tests.antt =====
-- Runs of internal/trie/trie.go, and instances of its theorems.
use mathlib.Core.List.{cons-ne-nil}
use allino.Base.{ℕ, ◌≡◌, refl, true, Bool, [], ◌∷◌, none, some, if◌then◌else◌, ltb, suc}
use allino.Base.Bytes.{Bytes, codes, bytes_eq}
use allino.Trie.{
  Trie, new_trie, insert, match_all, shortest_match, insert_in, longest_common_prefix, walk,
  shortest_in, has_prefix,
}
use allino.Trie.Lookup.{lookup, lookup_in}
use allino.Trie.Insert.{IsValid, insert-IsValid, new_trie-IsValid, insert-lookup}
use allino.Trie.Match.{entries, held, run_until, match_all-entries}

-- "/api" holds 1, "/app" 2, "/api/users" 3.
abbrev routes : Trie ℕ
routes =
    (insert (codes "/api/users") 3
      (insert (codes "/app") 2 (insert (codes "/api") 1 new_trie).0).0).0

routes-IsValid : IsValid routes
routes-IsValid = insert-IsValid _ 3 _ (insert-IsValid _ 2 _ (insert-IsValid _ 1 _ new_trie-IsValid))

shortest_run : shortest_match routes (codes "/api/users/7") ≡ some (1, codes "/api")
unfolding new_trie insert insert_in longest_common_prefix shortest_match shortest_in has_prefix
shortest_run = refl

entries_run :
    entries routes (codes "/api/users/7") ≡ (1, codes "/api") ∷ (3, codes "/api/users") ∷ []
unfolding new_trie insert insert_in longest_common_prefix entries held lookup lookup_in
entries_run = refl

-- The callback of a search for a value above a bound, which counts its calls.
abbrev above : ℕ → ℕ → Bytes → ℕ → Bool × ℕ
above bound v k n = (ltb bound v, suc n)

match_run : match_all (above 1) routes (codes "/api/users/7") 0 ≡ (true, 2)
unfolding new_trie insert insert_in longest_common_prefix match_all walk has_prefix
match_run = refl

insert-lookup_example :
    ((insert (codes "/a") 4 routes).1 ≡ none)
    × ((j : Bytes)
        → lookup j (insert (codes "/a") 4 routes).0
          ≡ (if bytes_eq j (codes "/a") then some 4 else lookup j routes))
unfolding new_trie insert insert_in longest_common_prefix lookup lookup_in
insert-lookup_example = insert-lookup (codes "/a") 4 routes routes-IsValid (cons-ne-nil _ _) refl

match_all-entries_example :
    match_all (above 1) routes (codes "/api/users/7") 0
    ≡ run_until (above 1) (entries routes (codes "/api/users/7")) 0
match_all-entries_example =
    match_all-entries (above 1) routes (codes "/api/users/7") 0 routes-IsValid
