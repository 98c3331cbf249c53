-- ===== src/RedisSessions/Recalled.antt =====
-- A session value from one request to the next, for session_redis.go.
use allino.Base.{
  ◌≡◌, refl, sym, ap, ◌∙◌, subst, Bool, true, false, List, [], ◌∷◌, Option, none, some,
  if◌then◌else◌, Bool-cases, Option-cases, inl, inr, arith,
}
use allino.Base.Bytes.{Bytes, bytes_eq, bytes_eq_refl, bytes_eq_comm, eq_of_bytes_eq, apart}
use allino.Login.{is_empty}
use allino.RedisSessions.{
  Hash, Redis, find, put_value, put_values, h_set, Json, compares, RedisSession, is_nil, stored,
  get_redis_session, open_entry, get_redis_session_entry, assign, run_checks, flush,
}

pub find-put_value :
    {V : Type 0} (j k : Bytes) (v : V) (kvs : List (Bytes × V))
    → find j (put_value k v kvs) ≡ (if bytes_eq k j then some v else find j kvs)
unfolding find put_value
find-put_value j k v [] = refl
find-put_value j k v ((i, w) ∷ kvs) = elim (Bool-cases (bytes_eq i k)) [
  | inl e ↦ ground (arith, eq_of_bytes_eq i k e)
  | inr e ↦ elim (Bool-cases (bytes_eq i j)) [
    | inl f ↦ ground (arith, apart i k j e f, bytes_eq_comm k j, find-put_value j k v kvs)
    | inr f ↦ ground (arith, find-put_value j k v kvs)
  ]
]

abbrev or_else : Option Bytes → Option Bytes → Option Bytes
or_else none o = o
or_else (some v) o = some v

pub find-put_values :
    (j : Bytes) (kvs hash : Hash)
    → find j (put_values kvs hash) ≡ or_else (find j kvs) (find j hash)
unfolding put_values find
find-put_values j [] hash = refl
find-put_values j ((k, v) ∷ kvs) hash = elim (Bool-cases (bytes_eq k j)) [
  | inl e ↦ ground (arith, find-put_value j k v (put_values kvs hash))
  | inr e ↦ ground (arith, find-put_value j k v (put_values kvs hash), find-put_values j kvs hash)
]

module _ {S : Type 0} (json : Json S) where
  -- A request whose code makes another value of that of its session; one that finds no value for an
  -- error leaves it.
  abbrev pub edited : Bytes → (S → S) → Option (S × Bool) × RedisSession S → RedisSession S
  edited name edit (none, sess) = sess
  edited name edit (some (s, created), sess) = assign json name (edit s) sess

  abbrev pub served : Redis → Bytes → Bytes → (S → S) → Redis
  served redis key name edit =
      flush json (edited name edit (get_redis_session_entry json redis name key name none)) redis

  -- JSON gives back every value from a text that is not empty.
  abbrev pub Writes : Type 0
  Writes =
      (s : S)
      → (text : Bytes) × (json.marshal s ≡ some text)
        × (is_empty text ≡ false)
        × (json.unmarshal text ≡ (s, true))

  -- A session of one value.
  abbrev session_of : Redis → Bytes → Bytes → Bytes → S → RedisSession S
  session_of redis key name text s = record {
    key = key;
    value = redis key;
    created = is_nil (redis key);
    checkfns = (name, compares text s) ∷ [];
  }

  open_new :
      (redis : Redis) (key name text : Bytes)
      → json.marshal json.zero ≡ some text
      → is_empty text ≡ false
      → json.unmarshal text ≡ (json.zero, true)
      → is_empty (stored (find name (redis key))) ≡ true
      → get_redis_session_entry json redis name key name none
        ≡ (some (json.zero, is_nil (redis key)), session_of redis key name text json.zero)
  unfolding get_redis_session_entry open_entry get_redis_session put_value
  open_new redis key name text w full back e = elim (Option-cases (find name (redis key))) [
    | inl lost ↦ rw (lost, w) refl
    | inr (old, is) ↦
        let blank : is_empty old ≡ true = ap (λ o. is_empty (stored o)) (sym is) ∙ e in
        rw (is, blank, w, full, back) refl
  ]

  open_old :
      (redis : Redis) (key name text : Bytes) (s : S)
      → find name (redis key) ≡ some text
      → is_empty text ≡ false
      → json.unmarshal text ≡ (s, true)
      → get_redis_session_entry json redis name key name none
        ≡ (some (s, is_nil (redis key)), session_of redis key name text s)
  unfolding get_redis_session_entry open_entry get_redis_session put_value
  open_old redis key name text s e full read = rw (e, full, full, read) refl

  -- What is written of a value that was edited.
  abbrev written : Redis → Bytes → Bytes → Bytes → Bytes → Redis
  written redis key name text end =
      if bytes_eq text end then redis else h_set key (put_value name end (redis key)) redis

  assign_self :
      (redis : Redis) (key name text : Bytes) (s t : S)
      → assign json name t (session_of redis key name text s) ≡ session_of redis key name text t
  unfolding assign find put_value
  assign_self redis key name text s t = ground (arith, bytes_eq_refl name)

  flush_one :
      (redis : Redis) (key name text end : Bytes) (t : S)
      → json.marshal t ≡ some end
      → flush json (session_of redis key name text t) redis ≡ written redis key name text end
  unfolding flush run_checks
  flush_one redis key name text end t e = elim (Bool-cases (bytes_eq text end)) [
    | inl same ↦ rw (e, same) refl
    | inr differs ↦ rw (e, differs) refl
  ]

  or_self :
      (b : Bool) (end : Bytes) (o : Option Bytes)
      → or_else (if b then some end else o) o ≡ (if b then some end else o)
  or_self true end o = refl
  or_self false end none = refl
  or_self false end (some v) = refl

  written_here :
      (redis : Redis) (key name text end j : Bytes)
      → bytes_eq text end ≡ false
      → find j (written redis key name text end key)
        ≡ (if bytes_eq name j then some end else find j (redis key))
  unfolding h_set
  written_here redis key name text end j differs =
      rw
        (
          differs,
          bytes_eq_refl key,
          find-put_values j (put_value name end (redis key)) (redis key),
          find-put_value j name end (redis key),
        )
        (or_self (bytes_eq name j) end (find j (redis key)))

  -- What the first of two requests read: the text that its value was compared with, and that a value
  -- with the same text would be read again.
  abbrev Read : Redis → Bytes → Bytes → S → Bytes → Type 0
  Read redis key name s text =
      (get_redis_session_entry json redis name key name none
        ≡ (some (s, is_nil (redis key)), session_of redis key name text s))
      × ((t : S) → json.unmarshal text ≡ (t, true) → t ≡ s)

  new-Read :
      Writes
      → (redis : Redis) (key name : Bytes) → is_empty (stored (find name (redis key))) ≡ true
      → (text : Bytes) × Read redis key name json.zero text
  new-Read writes redis key name e =
      let (text, w, full, back) = writes json.zero in
      (text, (open_new redis key name text w full back e, λ t is. ap (λ y. y.0) (sym is ∙ back)))

  old-Read :
      (redis : Redis) (key name text : Bytes) (s : S)
      → find name (redis key) ≡ some text
      → is_empty text ≡ false
      → json.unmarshal text ≡ (s, true)
      → Read redis key name s text
  old-Read redis key name text s e full back =
      (open_old redis key name text s e full back, λ t is. ap (λ y. y.0) (sym is ∙ back))

  served-written :
      (redis : Redis) (key name text end : Bytes) (s : S) (edit : S → S)
      → Read redis key name s text
      → json.marshal (edit s) ≡ some end
      → served redis key name edit ≡ written redis key name text end
  served-written redis key name text end s edit (opened, only) w =
      ap (λ x. flush json (edited name edit x) redis) opened
      ∙ ap (λ x. flush json x redis) (assign_self redis key name text s (edit s))
      ∙ flush_one redis key name text end (edit s) w

  -- Holds the value of a session under a name, and else what it held.
  abbrev pub Recalls : Redis → Redis → Bytes → Bytes → S → Type 0
  Recalls before after key name s =
      ((get_redis_session_entry json after name key name none).0 ≡ some (s, is_nil (after key)))
      × ((j : Bytes) → bytes_eq name j ≡ false → find j (after key) ≡ find j (before key))
      × ((k : Bytes) → bytes_eq k key ≡ false → after k ≡ before k)

  written-Recalls :
      (redis : Redis) (key name text end : Bytes) (s t : S)
      → Read redis key name s text
      → is_empty end ≡ false
      → json.unmarshal end ≡ (t, true)
      → Recalls redis (written redis key name text end) key name t
  unfolding h_set
  written-Recalls redis key name text end s t (opened, only) full back =
      elim (Bool-cases (bytes_eq text end)) [
        | inl same ↦
            let is : t ≡ s = only t (ap json.unmarshal (eq_of_bytes_eq text end same) ∙ back) in
            rw (same, is) (ap (λ y. y.0) opened, λ j h. refl, λ k h. refl)
        | inr differs ↦
            let here = written_here redis key name text end name differs in
            (
              ap (λ y. y.0)
                  (open_old (written redis key name text end) key name end t
                    (here ∙ rw (bytes_eq_refl name) refl) full back),
              λ j h. written_here redis key name text end j differs ∙ rw h refl,
              λ k h. rw (differs, h) refl,
            )
      ]

  -- The two ways to read.
  open_bad :
      (redis : Redis) (key name text : Bytes)
      → find name (redis key) ≡ some text
      → is_empty text ≡ false
      → (json.unmarshal text).1 ≡ false
      → (get_redis_session_entry json redis name key name none).0 ≡ none
  unfolding get_redis_session_entry open_entry get_redis_session
  open_bad redis key name text e full bad = rw (e, full, full, bad) refl

  same-Read :
      (redis : Redis) (key name text : Bytes) (s t : S) (c : Bool)
      → Read redis key name t text
      → (get_redis_session_entry json redis name key name none).0 ≡ some (s, c)
      → Read redis key name s text
  same-Read redis key name text s t c read h =
      let pairs : some (t, is_nil (redis key)) ≡ some (s, c) = sym (ap (λ y. y.0) (read.0)) ∙ h in
      let is : t ≡ s = ap (λ o. elim o [ none ↦ t | some p ↦ p.0 ]) pairs in
      subst (λ x. Read redis key name x text) is read

  here-Read :
      Writes
      → (redis : Redis) (key name : Bytes) (s : S) (c : Bool)
      → (get_redis_session_entry json redis name key name none).0 ≡ some (s, c)
      → (text : Bytes) × Read redis key name s text
  here-Read writes redis key name s c h =
      elim (Bool-cases (is_empty (stored (find name (redis key))))) [
        | inl e ↦
            let (text, read) = new-Read writes redis key name e in
            (text, same-Read redis key name text s json.zero c read h)
        | inr e ↦ elim (Option-cases (find name (redis key))) [
          | inl lost ↦ absurd (ground arith)
          | inr (text, is) ↦
              let full : is_empty text ≡ false = ground arith in
              elim (Bool-cases ((json.unmarshal text).1)) [
                | inr bad ↦ absurd (ground (arith, open_bad redis key name text is full bad))
                | inl good ↦
                    let old =
                      old-Read redis key name text ((json.unmarshal text).0) is full
                        (ap (λ b. ((json.unmarshal text).0, b)) good) in
                    (text, same-Read redis key name text s ((json.unmarshal text).0) c old h)
              ]
        ]
      ]

  -- Where JSON gives back every value of a session type from a text that is not empty: after a
  -- request that reads a value of a session and sets it, the next request of the session reads
  -- the value that was set; the values under other names and the sessions under other keys are
  -- what they were.
  pub served-Recalls :
      Writes
      → (redis : Redis) (key name : Bytes) (s : S) (c : Bool) (edit : S → S)
      → (get_redis_session_entry json redis name key name none).0 ≡ some (s, c)
      → Recalls redis (served redis key name edit) key name (edit s)
  served-Recalls writes redis key name s c edit h =
      let (text, read) = here-Read writes redis key name s c h in
      let (end, w, full, back) = writes (edit s) in
      subst (λ r. Recalls redis r key name (edit s))
        (sym (served-written redis key name text end s edit read w))
        (written-Recalls redis key name text end s (edit s) read full back)
