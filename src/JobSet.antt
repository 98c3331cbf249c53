-- ===== src/JobSet.antt =====
-- typedhandler_job_set.go: a set of handler names. The Go map is the list of its keys, each of them
-- once; Go leaves the order of a range over it open, and here it is the order of the list. The lock
-- makes each call one step.
pub mod Laws
mod Tests
use allino.Base.{
  ℕ, ◌+◌, ◌==◌, Bool, true, false, not, ◌||◌, List, [], ◌∷◌, ◌++◌, if◌then◌else◌, length,
}
use allino.Base.Bytes.{Bytes, bytes_eq}

pub record Jobset : Type 0 where
  pub names : List Bytes

unfoldable pub new_jobset : Jobset
new_jobset = record { names = [] }

unfoldable pub member : Bytes → List Bytes → Bool
member v [] = false
member v (x ∷ xs) = bytes_eq x v || member v xs

-- `s.m[v] = struct{}{}`.
unfoldable pub add : Bytes → Jobset → Jobset
unfolding member
add v s = if member v s.names then s else record { names = s.names ++ v ∷ [] }

unfoldable pub without : Bytes → List Bytes → List Bytes
without v [] = []
without v (x ∷ xs) = let rest = without v xs in if bytes_eq x v then rest else x ∷ rest

unfoldable pub remove : Bytes → Jobset → Jobset
unfolding without
remove v s = record { names = without v s.names }

unfoldable pub len : Jobset → ℕ
len s = length s.names

unfoldable pub contains : Bytes → Jobset → Bool
unfolding member
contains v s = member v s.names

abbrev pub slice : Jobset → List Bytes
slice s = s.names

-- The sum of the lengths, for the early return of `Diff`.
unfoldable pub total_len : List Jobset → ℕ
unfolding len
total_len [] = 0
total_len (o ∷ os) = len o + total_len os

unfoldable pub in_any : Bytes → List Jobset → Bool
unfolding contains
in_any k [] = false
in_any k (o ∷ os) = contains k o || in_any k os

unfoldable pub outside : List Jobset → List Bytes → List Bytes
unfolding in_any
outside others [] = []
outside others (k ∷ ks) =
    let rest = outside others ks in if not (in_any k others) then k ∷ rest else rest

unfoldable pub diff : Jobset → List Jobset → List Bytes
unfolding total_len outside
diff s others = if total_len others == 0 then slice s else outside others s.names
