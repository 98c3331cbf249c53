-- ===== src/Jobs/Listing.antt =====
-- `List` of typedhandler_job_sql.go: the jobs with some statuses, newest first, page by page. Jobs
-- of one time, whose order SQL leaves open, stand in the order of their ids here.
use allino.Base.{
  ℕ, zero, suc, ◌==◌, Bool, true, false, ◌||◌, List, [], ◌∷◌, if◌then◌else◌, take, drop, ltb,
}
use allino.Base.Int.{ℤ, pos, negsuc}
use allino.Jobs.Table.{status_code, Row, Db}
use allino.Jobs.Outcome.{JobInfo}

unfoldable pub in_codes : ℕ → List ℕ → Bool
in_codes c [] = false
in_codes c (d ∷ ds) = d == c || in_codes c ds

-- Without a status there is no condition.
unfoldable pub is_listed : List ℕ → Row → Bool
unfolding in_codes
is_listed [] r = true
is_listed (d ∷ ds) r = in_codes (status_code r.status) (d ∷ ds)

abbrev pub row_info : Row → JobInfo
row_info r = record {
  job_id = r.key;
  handler = r.handler;
  meta = record {
    version = r.version;
    status = r.status;
    parent_id = r.parent_id;
    root_id = r.root_id;
    ttl = r.ttl;
    priority = r.priority;
  };
  created_at = r.created_at;
  updated_at = r.updated_at;
  leased_until = r.leased_until;
  retry_count = r.retry_count;
}

unfoldable pub place_newest : JobInfo → List JobInfo → List JobInfo
place_newest j [] = j ∷ []
place_newest j (k ∷ ks) =
    let rest = place_newest j ks in if ltb j.created_at k.created_at then k ∷ rest else j ∷ k ∷ ks

unfoldable pub newest_first : List ℕ → List Row → List JobInfo
unfolding is_listed place_newest
newest_first statuses [] = []
newest_first statuses (r ∷ rs) =
    let rest = newest_first statuses rs in
    if is_listed statuses r then place_newest (row_info r) rest else rest

abbrev pub page_limit : ℤ → ℕ
page_limit (pos zero) = 50
page_limit (pos (suc n)) = suc n
page_limit (negsuc n) = 50

abbrev pub page_offset : ℤ → ℕ
page_offset (pos n) = n
page_offset (negsuc n) = 0

unfoldable pub list : List ℕ → ℤ → ℤ → Db → List JobInfo
unfolding newest_first
list statuses limit offset db =
    take (page_limit limit) (drop (page_offset offset) (newest_first statuses db.executions))
