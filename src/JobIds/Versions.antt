-- ===== src/JobIds/Versions.antt =====
-- Versions of handlers in typedhandler_job_utils.go, compared.
use allino.Base.{
  ◌≡◌, refl, ap, sym, ◌∙◌, inl, inr, Bool, true, false, not, ◌||◌, ◌∷◌, ◌++◌, Option, none, some,
  arith, Option-cases, ==_refl,
}
use allino.Base.Bytes.{Bytes}
use allino.Base.Int.{ℤ, pos, negsuc}
use allino.Base.Split.{count_byte, split-append, split_whole}
use allino.JobIds.{dot, parse_parts, parse_major_minor, eq_ℤ, has_major_or_minor_version_diff}

-- The answer of a comparison of two parsed versions.
abbrev differ : Option (ℤ × ℤ) → Option (ℤ × ℤ) → Bool
differ none q = false
differ (some p) none = false
differ (some (ma, mi)) (some (mb, mj)) = not (eq_ℤ ma mb) || not (eq_ℤ mi mj)

diff-differ :
    (a b : Bytes)
    → has_major_or_minor_version_diff a b ≡ differ (parse_major_minor a) (parse_major_minor b)
unfolding has_major_or_minor_version_diff
diff-differ a b = elim (Option-cases (parse_major_minor a)) [
  | inl e ↦ rw (has_major_or_minor_version_diff, e) refl
  | inr (p, e) ↦ elim (Option-cases (parse_major_minor b)) [
    | inl f ↦ rw (has_major_or_minor_version_diff, e) (rw f refl)
    | inr (q, f) ↦ rw (has_major_or_minor_version_diff, e) (rw f refl)
  ]
]

eq_ℤ_comm : (a b : ℤ) → eq_ℤ a b ≡ eq_ℤ b a
eq_ℤ_comm (pos a) (pos b) = ground arith
eq_ℤ_comm (pos a) (negsuc b) = refl
eq_ℤ_comm (negsuc a) (pos b) = refl
eq_ℤ_comm (negsuc a) (negsuc b) = ground arith

eq_ℤ_refl : (a : ℤ) → eq_ℤ a a ≡ true
eq_ℤ_refl (pos a) = ==_refl a
eq_ℤ_refl (negsuc a) = ==_refl a

differ_comm : (p q : Option (ℤ × ℤ)) → differ p q ≡ differ q p
differ_comm none none = refl
differ_comm none (some q) = refl
differ_comm (some p) none = refl
differ_comm (some p) (some q) = rw (eq_ℤ_comm p.0 q.0, eq_ℤ_comm p.1 q.1) refl

-- What stands behind the second dot does not count.
parse-patch :
    (major minor patch : Bytes)
    → count_byte dot major ≡ 0
    → count_byte dot minor ≡ 0
    → parse_major_minor (major ++ dot ∷ (minor ++ dot ∷ patch))
      ≡ parse_major_minor (major ++ dot ∷ minor)
unfolding parse_major_minor parse_parts
parse-patch major minor patch h k =
    ap parse_parts (
      split-append dot major (minor ++ dot ∷ patch) h
      ∙ ap (◌∷◌ major) (split-append dot minor patch k))
    ∙ ap parse_parts
        (sym (split-append dot major minor h ∙ ap (◌∷◌ major) (split_whole dot minor k)))

-- Whether two versions differ in the major or minor part does not depend on their order.
pub diff_comm :
    (a b : Bytes) → has_major_or_minor_version_diff a b ≡ has_major_or_minor_version_diff b a
diff_comm a b =
    diff-differ a b
    ∙ differ_comm (parse_major_minor a) (parse_major_minor b)
    ∙ sym (diff-differ b a)

-- Two versions with one major and minor part do not differ, whatever follows.
differ_self : (p : Option (ℤ × ℤ)) → differ p p ≡ false
differ_self none = refl
differ_self (some p) = rw (eq_ℤ_refl p.0, eq_ℤ_refl p.1) refl

pub diff_refl : (v : Bytes) → has_major_or_minor_version_diff v v ≡ false
diff_refl v = diff-differ v v ∙ differ_self (parse_major_minor v)

-- Two versions with the same major and minor part, which hold no dot, do not differ, whatever
-- follows the second dot.
pub diff-patch :
    (major minor patch patch' : Bytes)
    → count_byte dot major ≡ 0
    → count_byte dot minor ≡ 0
    → has_major_or_minor_version_diff
        (major ++ dot ∷ (minor ++ dot ∷ patch))
        (major ++ dot ∷ (minor ++ dot ∷ patch'))
      ≡ false
diff-patch major minor patch patch' h k =
    diff-differ (major ++ dot ∷ (minor ++ dot ∷ patch)) (major ++ dot ∷ (minor ++ dot ∷ patch'))
    ∙ rw (parse-patch major minor patch h k, parse-patch major minor patch' h k)
        (differ_self (parse_major_minor (major ++ dot ∷ minor)))
