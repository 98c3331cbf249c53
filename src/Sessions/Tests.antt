-- ===== src/Sessions/Tests.antt =====
-- Runs of the session manager, and instances of its theorems.
use allino.Base.{ℕ, ◌≡◌, refl, false, List, [], ◌∷◌, none, arith}
use allino.Base.Bytes.{Bytes, codes}
use allino.JobSet.{new_jobset}
use allino.Sessions.Store.{Amounts, Manager, create_session, session_gc, amount, find_entry}
use allino.Sessions.Sticky.{Token, Request, valid, route, call_sticky, proxied}
use allino.Sessions.Guards.{Vouched, call_sticky-Vouched}
use allino.Sessions.Accounts.{
  IsAccounted, total_use, create_session-IsAccounted, session_gc-IsAccounted,
}

abbrev gpu : Bytes
gpu = codes "gpu"

abbrev limits : Amounts
limits = (gpu, 3) ∷ []

abbrev idle : Manager ℕ
idle = record { groups = []; store = []; consumed = []; resource_locked = new_jobset }

idle-IsAccounted : IsAccounted limits idle
unfolding amount total_use
idle-IsAccounted = record { exact = λ k. refl; bounded = λ k. omega arith }

create_session-IsAccounted_example :
    IsAccounted limits
      (create_session 5 60 limits (codes "chat") (codes "s1") ((gpu, 2) ∷ []) idle).1
unfolding find_entry
create_session-IsAccounted_example =
    create_session-IsAccounted 5 60 limits (codes "chat") (codes "s1") ((gpu, 2) ∷ []) idle
      (refl, tt) refl idle-IsAccounted

session_gc-IsAccounted_example : IsAccounted limits (
    session_gc 100 60
      (λ v. false)
      (create_session 5 60 limits (codes "chat") (codes "s1") ((gpu, 2) ∷ []) idle).1)
session_gc-IsAccounted_example =
    session_gc-IsAccounted 100 60 (λ v. false) limits _ create_session-IsAccounted_example

abbrev request : Request
request = record { cookie = codes "c"; sticky_header = []; matches = λ h. false }

abbrev token : Token
token = record {
  node_ip = codes "10.0.0.2";
  name = codes "chat";
  session_id = codes "s1";
  create_at = 0;
}

abbrev peers : List Bytes
peers = codes "10.0.0.2" ∷ []

call_sticky-Vouched_example :
    Vouched
      (codes "chat")
      (codes "10.0.0.1")
      peers
      request
      (λ s. valid token)
      (call_sticky 7 0 (codes "chat") (codes "10.0.0.1") peers (λ s. valid token) none none request)
call_sticky-Vouched_example =
    call_sticky-Vouched (codes "chat") (codes "10.0.0.1") peers request 7 0 (λ s. valid token) none
      none

passed_on :
    call_sticky 7 0 (codes "chat") (codes "10.0.0.1") peers (λ s. valid token) none none request
    ≡ proxied (codes "10.0.0.2")
unfolding call_sticky route
passed_on = refl
