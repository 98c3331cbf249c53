-- ===== src/Sessions/Accounts.antt =====
-- The accounts of session_manager.go: the resources that are consumed are those of the sessions.
use allino.Base.{
  ℕ, ◌+◌, ◌≤◌, ◌≡◌, subst, refl, ap, sym, ◌∙◌, Bool, false, List, [], ◌∷◌, none, ltb, Bool-cases,
  inl, inr, arith,
}
use allino.Base.Bytes.{Bytes, bytes_eq}
use allino.JobSet.{Jobset, remove}
use allino.Sessions.Store.{
  Amounts, amount, Entry, Manager, Consumed, consume_ok, consume_full, consume_overflow,
  is_overflow, check_uses, add_uses, entry_consume, entry_free, session_handler, find_entry,
  put_entry, keep_session, create_session, keeps, sweep, session_gc,
}
use allino.Sessions.Amounts.{
  use_of, amount-add, amount-free, IsMap, check_uses-fits, consume_fits, consume_overflows,
}

module _ {V : Type 0} where
  -- What the sessions of a list use of a resource.
  unfoldable pub total_use : Bytes → List (Entry V) → ℕ
  total_use k [] = 0
  total_use k (e ∷ es) = use_of k e.uses + total_use k es

  -- What is consumed of a resource is what the sessions use, and no more than there is.
  pub record IsAccounted (max : Amounts) (m : Manager V) : Type 0 where
    pub exact : (k : Bytes) → amount k m.consumed ≡ total_use k m.store
    pub bounded : (k : Bytes) → amount k m.consumed ≤ amount k max

  total-put :
      (k : Bytes) (n : Entry V) (es : List (Entry V))
      → find_entry n.sid es ≡ none
      → total_use k (put_entry n es) ≡ total_use k es + use_of k n.uses
  unfolding total_use find_entry put_entry
  total-put k n [] h = omega arith
  total-put k n (e ∷ es) h = elim (Bool-cases (bytes_eq e.sid n.sid)) [
    | inl t ↦ ground arith
    | inr t ↦ rw t (omega (arith, total-put k n es (ground arith)))
  ]

  -- Creating a session under a new id keeps the accounts: of every resource there is in use
  -- what the sessions use together, and no more than there is.
  pub create_session-IsAccounted :
      (now expire : ℕ) (max : Amounts) (name sid : Bytes) (uses : Amounts) (m : Manager V)
      → IsMap uses
      → find_entry sid m.store ≡ none
      → IsAccounted max m
      → IsAccounted max (create_session now expire max name sid uses m).1
  unfolding create_session keep_session
  create_session-IsAccounted now expire max name sid uses m distinct new acc =
      created (check_uses max m.consumed uses) refl
    where
      entry : Entry V
      entry = record { sid = sid; name = name; uses = uses; value = none; expire_at = now + expire }

      stored :
          (locked : Jobset)
          → is_overflow (check_uses max m.consumed uses) ≡ false
          → IsAccounted max (record m {
            store = put_entry entry m.store;
            consumed = add_uses uses m.consumed;
            resource_locked = locked;
          })
      stored locked o = record {
        exact = λ k.
            amount-add k uses m.consumed
            ∙ ap (λ n. n + use_of k uses) (acc.exact k)
            ∙ sym (total-put k entry m.store new);
        bounded = λ k. omega (
          arith,
          amount-add k uses m.consumed,
          check_uses-fits max m.consumed uses k distinct o (acc.bounded k),
        );
      }

      transported :
          (p : Consumed × Amounts)
          → entry_consume max uses m.consumed ≡ p
          → IsAccounted max (keep_session entry m p).1
          → IsAccounted max (keep_session entry m (entry_consume max uses m.consumed)).1
      transported p e = subst (λ q. IsAccounted max (keep_session entry m q).1) (sym e)

      created :
          (r : Consumed)
          → check_uses max m.consumed uses ≡ r
          → IsAccounted max (keep_session entry m (entry_consume max uses m.consumed)).1
      created consume_overflow e =
          transported (consume_overflow, m.consumed) (consume_overflows max uses m.consumed e) acc
      created consume_full e =
          transported (consume_full, add_uses uses m.consumed)
            (consume_fits max uses m.consumed consume_full e refl) (stored _ (ap is_overflow e))
      created consume_ok e =
          transported (consume_ok, add_uses uses m.consumed)
            (consume_fits max uses m.consumed consume_ok e refl) (stored _ (ap is_overflow e))

  -- A collection frees what its sessions used, whatever else is in use.
  swept :
      (now expire : ℕ) (keep_alive : V → Bool) (es : List (Entry V)) (consumed : Amounts)
      (locked : Jobset) (k : Bytes) (base : ℕ)
      → amount k consumed ≡ base + total_use k es
      → let r = sweep now expire keep_alive es consumed locked in
        amount k r.1 ≡ base + total_use k r.0
  unfolding sweep total_use
  swept now expire keep_alive [] consumed locked k base h = h
  swept now expire keep_alive (e ∷ es) consumed locked k base h =
      let stay =
        swept now expire keep_alive es consumed locked k (base + use_of k e.uses)
          (omega (arith, h)) in
      let freed : amount k (entry_free e.uses consumed) ≡ base + total_use k es =
        omega (arith, amount-free k e.uses consumed, h) in
      elim (Bool-cases (ltb e.expire_at now)) [
        | inl late ↦ elim (Bool-cases (keeps keep_alive e.value)) [
          | inl kept ↦ rw late (rw kept (omega (arith, stay)))
          | inr gone ↦ rw late (
              rw gone (
                swept now expire keep_alive es (entry_free e.uses consumed)
                  (remove (session_handler e.name) locked) k base freed))
        ]
        | inr early ↦ rw early (omega (arith, stay))
      ]

  -- A collection takes nothing into use.
  swept_le :
      (now expire : ℕ) (keep_alive : V → Bool) (es : List (Entry V)) (consumed : Amounts)
      (locked : Jobset) (k : Bytes)
      → amount k (sweep now expire keep_alive es consumed locked).1 ≤ amount k consumed
  unfolding sweep
  swept_le now expire keep_alive [] consumed locked k = omega arith
  swept_le now expire keep_alive (e ∷ es) consumed locked k =
      let stay = swept_le now expire keep_alive es consumed locked k in
      let freed =
        swept_le now expire keep_alive es (entry_free e.uses consumed)
          (remove (session_handler e.name) locked) k in
      elim (Bool-cases (ltb e.expire_at now)) [
        | inl late ↦ elim (Bool-cases (keeps keep_alive e.value)) [
          | inl kept ↦ rw late (rw kept stay)
          | inr gone ↦ rw late (rw gone (omega (arith, freed, amount-free k e.uses consumed)))
        ]
        | inr early ↦ rw early stay
      ]

  -- A collection of expired sessions keeps the accounts: of every resource there is in use what
  -- the sessions use together, and no more than there is.
  pub session_gc-IsAccounted :
      (now expire : ℕ) (keep_alive : V → Bool) (max : Amounts) (m : Manager V)
      → IsAccounted max m
      → IsAccounted max (session_gc now expire keep_alive m)
  unfolding session_gc
  session_gc-IsAccounted now expire keep_alive max m acc = record {
    exact = λ k. omega (
      arith,
      swept now expire keep_alive m.store m.consumed m.resource_locked k 0
          (omega (arith, acc.exact k)),
    );
    bounded = λ k. omega (
      arith,
      acc.bounded k,
      swept_le now expire keep_alive m.store m.consumed m.resource_locked k,
    );
  }
