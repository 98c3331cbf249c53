-- ===== src/Streams/Replay.antt =====
-- What the replay of a stream receives, for typedhandler_job_redis.go.
use allino.Base.{
  ℕ, zero, suc, ◌<◌, ◌≡◌, ◌∙◌, refl, ap, sym, Bool, true, false, List, [], ◌∷◌, ◌++◌, Option, none,
  some, if◌then◌else◌, length, take, append_assoc, arith, inl, inr, ◌||◌, ◌⊎◌, subst, length-append,
}
use allino.Base.Bytes.{Bytes, bytes_eq, codes, bytes_eq_refl}
use allino.Streams.{
  Message, StreamType, replay, replay_all, receive, prepend, replay_loop, replay_until_last_id,
  Listening, start_stream, is_empty,
}

-- No message has an id.
abbrev pub Without : Bytes → List Message → Type 0
Without id [] = Unit
Without id (m ∷ ms) = (bytes_eq m.id id ≡ false) × Without id ms

-- The id from which a read goes on: of the start, or of the last message received.
abbrev pub id_after : Bytes → List Message → Bytes
id_after start [] = start
id_after start (m ∷ ms) = id_after m.id ms

-- What the code relies on of Redis: as long as the messages up to `last` are not all read, a read
-- from the last id received gives the message that follows and maybe more, in the order of the
-- stream. `later` are the messages that are added meanwhile.
abbrev pub Reads :
    (ℕ → Bytes → Option (List Message)) → Bytes → List Message → Message → List Message → Type 0
Reads x_read start front last later =
    (round : ℕ) (before : List Message) (m : Message) (rest : List Message)
    → front ++ last ∷ [] ≡ before ++ m ∷ rest
    → (k : ℕ) × (x_read round (id_after start before) ≡ some (m ∷ take k (rest ++ later)))

-- A round that reads a page.
replay_loop_page :
    (x_read : ℕ → Bytes → Option (List Message)) (fuel : ℕ) (last current : Bytes) (m : Message)
    (ms got : List Message) (current' : Bytes) (done : Bool)
    → x_read fuel current ≡ some (m ∷ ms)
    → receive last current (m ∷ ms) ≡ (got, current', done)
    → replay_loop x_read (suc fuel) last current
      ≡ (if done then some got else prepend got (replay_loop x_read fuel last current'))
unfolding replay_loop
replay_loop_page x_read fuel last current m ms got current' done page received =
    rw (replay_loop, page, received)

module _ (last : Message) where
  -- A page without the last message is received whole.
  receive-Without :
      (current : Bytes) (ms : List Message)
      → Without last.id ms
      → receive last.id current ms ≡ (ms, id_after current ms, false)
  unfolding receive
  receive-Without current [] w = refl
  receive-Without current (m ∷ ms) (w, ws) = rw (w, receive-Without m.id ms ws)

  -- A page with it, up to it.
  receive-last :
      (current : Bytes) (ms rest : List Message)
      → Without last.id ms
      → receive last.id current (ms ++ last ∷ rest) ≡ (ms ++ last ∷ [], last.id, true)
  unfolding receive
  receive-last current [] rest w = rw (bytes_eq_refl last.id)
  receive-last current (m ∷ ms) rest (w, ws) = rw (w, receive-last m.id ms rest ws)

  -- A page of the messages up to the last one and those after it: a part of the first, or all of
  -- them and some of the others.
  page_split :
      (k : ℕ) (ms later : List Message)
      → ((got : List Message) × (left : List Message) × (ms ≡ got ++ left)
          × (take k (ms ++ last ∷ later) ≡ got))
        ⊎ ((more : List Message) × (take k (ms ++ last ∷ later) ≡ ms ++ last ∷ more))
  page_split zero ms later = inl ([], ms, refl, refl)
  page_split (suc k) [] later = inr (take k later, refl)
  page_split (suc k) (m ∷ ms) later = elim (page_split k ms later) [
    | inl (got, left, split, page) ↦ inl (m ∷ got, left, ap (◌∷◌ m) split, ap (◌∷◌ m) page)
    | inr (more, page) ↦ inr (more, ap (◌∷◌ m) page)
  ]

  id_after-append :
      (start : Bytes) (xs ys : List Message)
      → id_after start (xs ++ ys) ≡ id_after (id_after start xs) ys
  id_after-append start [] ys = refl
  id_after-append start (x ∷ xs) ys = id_after-append x.id xs ys

  Without-append :
      (id : Bytes) (xs ys : List Message) → Without id (xs ++ ys) → Without id xs × Without id ys
  Without-append id [] ys w = (tt, w)
  Without-append id (x ∷ xs) ys (w, ws) = let (l, r) = Without-append id xs ys ws in ((w, l), r)

  module _ (x_read : ℕ → Bytes → Option (List Message)) (start : Bytes) (front later : List Message)
      (reads : Reads x_read start front last later) (once : Without last.id front) where
    replay_loop-rest :
        (fuel : ℕ) (before rest : List Message)
        → front ≡ before ++ rest
        → length rest < fuel
        → replay_loop x_read fuel last.id (id_after start before) ≡ some (rest ++ last ∷ [])
    replay_loop-rest zero before rest split enough = absurd (omega arith)
    replay_loop-rest (suc fuel) before [] split enough =
        let (k, page) = reads fuel before last [] (rw split (append_assoc before [] (last ∷ []))) in
        replay_loop_page x_read fuel last.id (id_after start before) last (take k later) (last ∷ [])
          last.id true page (receive-last (id_after start before) [] (take k later) tt)
    replay_loop-rest (suc fuel) before (m ∷ rest) split enough =
        let (k, page) =
          reads fuel before m (rest ++ last ∷ [])
            (rw split (append_assoc before (m ∷ rest) (last ∷ []))) in
        let absent : Without last.id (m ∷ rest) =
          (Without-append last.id before (m ∷ rest) (subst (Without last.id) split once)).1 in
        let page' : x_read fuel (id_after start before) ≡ some (m ∷ take k (rest ++ last ∷ later)) =
          page ∙ ap (λ xs. some (m ∷ take k xs)) (append_assoc rest (last ∷ []) later) in
        elim (page_split k rest later) [
          | inr (more, is) ↦
              replay_loop_page x_read fuel last.id (id_after start before) m (rest ++ last ∷ more)
                (m ∷ rest ++ last ∷ []) last.id true (rw (page', is))
                (receive-last (id_after start before) (m ∷ rest) more absent)
          | inl (got, left, cut, is) ↦
              let whole : front ≡ (before ++ m ∷ got) ++ left =
                split
                ∙ ap (λ xs. before ++ m ∷ xs) cut
                ∙ sym (append_assoc before (m ∷ got) left) in
              let fewer : length left < fuel =
                omega (arith, ap length cut, length-append got left) in
              let ih = replay_loop-rest fuel (before ++ m ∷ got) left whole fewer in
              let received =
                receive-Without (id_after start before) (m ∷ got)
                  (Without-append last.id (m ∷ got) left
                    (subst (λ xs. Without last.id (m ∷ xs)) cut absent)).0 in
              let step =
                replay_loop_page x_read fuel last.id (id_after start before) m got (m ∷ got)
                  (id_after m.id got) false (rw (page', is)) received in
              step
              ∙ ap (prepend (m ∷ got)) (
                  ap (replay_loop x_read fuel last.id)
                    (sym (id_after-append start before (m ∷ got)))
                  ∙ ih)
              ∙ ap (λ xs. some (m ∷ xs))
                  (sym (append_assoc got left (last ∷ [])) ∙ ap (λ xs. xs ++ last ∷ []) (sym cut))
        ]

    -- A replay from a start, with more rounds than there are messages before the last one, ends
    -- and has received exactly the messages up to the last one, each once and in order.
    pub replay_until_last_id-all :
        (fuel : ℕ)
        → length front < fuel
        → (bytes_eq last.id (codes "0") || is_empty last.id) ≡ false
        → (bytes_eq start (codes "$") || is_empty start) ≡ false
        → replay_until_last_id x_read fuel start last.id ≡ some (front ++ last ∷ [])
    unfolding replay_until_last_id
    replay_until_last_id-all fuel enough given from =
        rw (given, from) (replay_loop-rest fuel [] front refl enough)

-- All that a server handles of a stream: what is replayed, and what the group then delivers.
abbrev pub handled : (Bytes → List Message) → Option Listening → Option (List Message)
handled deliver none = none
handled deliver (some l) = elim l.group [
  | none ↦ some l.replayed
  | some id ↦ some (l.replayed ++ deliver id)
]

-- On a stream with messages, started from id 0 by a server whose consumer group is not there
-- yet: the mode replayall handles every message of the stream once and in order, those that are
-- added during the replay among them; the mode replay handles the messages up to the last one
-- at the start, and then every message of the stream, so these twice.
pub start_stream-handled :
    (x_read : ℕ → Bytes → Option (List Message)) (deliver : Bytes → List Message) (fuel : ℕ)
    (front later : List Message) (last : Message) (st : StreamType)
    → Reads x_read (codes "0") front last later
    → deliver (codes "0") ≡ front ++ last ∷ later
    → deliver last.id ≡ later
    → Without last.id front
    → length front < fuel
    → (bytes_eq last.id (codes "0") || is_empty last.id) ≡ false
    → st.inited ≡ true
    → st.start ≡ codes "0"
    → st.last_id ≡ last.id
    → (handled deliver (start_stream x_read fuel false false (record st { mode = replay_all }))
        ≡ some (front ++ last ∷ later))
      × (handled deliver (start_stream x_read fuel false false (record st { mode = replay }))
          ≡ some ((front ++ last ∷ []) ++ (front ++ last ∷ later)))
unfolding start_stream
start_stream-handled x_read deliver fuel front later last st reads all rest once enough given inited
      start last_id =
    let run : replay_until_last_id x_read fuel st.start st.last_id ≡ some (front ++ last ∷ []) =
      rw (start, last_id)
        (replay_until_last_id-all last x_read (codes "0") front later reads once fuel enough given
          refl) in
    (
      simp (inited, run) (simp (last_id, rest, append_assoc front (last ∷ []) later)),
      simp (inited, run) (simp (start, all)),
    )
