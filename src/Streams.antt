-- ===== src/Streams.antt =====
-- typedhandler_job_redis.go: functions whose calls go over Redis streams. What Redis answers is an
-- argument; `XTRIM` of old messages, errors of the connection and the progress of a replay are left
-- out. A message is handled where the worker pool takes it, which is where it is received here.
pub mod Replay
pub mod Listener
mod Tests
use allino.Base.{
  ℕ, zero, suc, Bool, true, false, ◌||◌, not, List, [], ◌∷◌, ◌++◌, Option, none, some,
  if◌then◌else◌,
}
use allino.Base.Bytes.{Bytes, bytes_eq, codes}
use allino.JobIds.{handler_version, has_major_or_minor_version_diff}
use allino.Calls.Worker.{JobInput, panics, job_input}

-- `redis.XMessage` with the values that the code reads; `none` is no string.
pub record Message : Type 0 where
  pub id : Bytes
  pub input : Option Bytes
  pub version : Option Bytes

pub data Mode : Type 0 where
  fanout replay replay_all : Mode

-- `RedisStreamType`: where the stream stands is in `inited` and `last_id`.
pub record StreamType : Type 0 where
  pub stream : Bytes
  pub ttl : ℕ
  pub mode : Mode
  pub start : Bytes
  pub inited : Bool
  pub last_id : Bytes

abbrev pub is_empty : Bytes → Bool
is_empty [] = true
is_empty (_ ∷ _) = false

unfoldable pub stream_mode : Bytes → Option Mode
stream_mode mode =
    if bytes_eq mode (codes "fanout")
    then some fanout
    else if bytes_eq mode (codes "replay")
    then some replay
    else if bytes_eq mode (codes "replayall")
    then some replay_all
    else none

-- `IsTarget`.
unfoldable pub is_target : Bytes → Bool
unfolding stream_mode
is_target mode = elim (stream_mode mode) [ none ↦ false | some _ ↦ true ]

abbrev pub first_start : Mode → Bytes
first_start fanout = codes "$"
first_start replay = codes "0"
first_start replay_all = codes "0"

-- The stream that `callRedisInit` adds: `on_init` is what `OnStreamInit` answers, where it is set.
unfoldable pub call_redis_init : Bytes → Bytes → Bytes → ℕ → Option Bytes → Option StreamType
unfolding stream_mode
call_redis_init prefix name mode ttl on_init = elim (stream_mode mode) [
  | none ↦ none
  | some m ↦
      let start : Bytes = elim on_init [ none ↦ first_start m | some s ↦ s ] in
      some (record {
        stream = prefix ++ name;
        ttl = ttl;
        mode = m;
        start = if is_empty start then codes "$" else start;
        inited = false;
        last_id = [];
      })
]

-- `streamTypes` by the name of the stream.
unfoldable pub add_stream : StreamType → List StreamType → List StreamType
add_stream st [] = st ∷ []
add_stream st (s ∷ ss) = if bytes_eq s.stream st.stream then st ∷ ss else s ∷ add_stream st ss

-- What a stream is found to be: `none` is no stream, else its last generated id.
abbrev pub inspect : Option Bytes → StreamType → StreamType
inspect none st = record st { last_id = codes "0" }
inspect (some id) st = record st { inited = true; last_id = id }

-- The messages of a page up to the last one of the replay, with the id of the last one received and
-- whether it was that.
unfoldable pub receive : Bytes → Bytes → List Message → List Message × Bytes × Bool
receive last current [] = ([], current, false)
receive last current (m ∷ ms) =
    let rest = receive last m.id ms in
    if bytes_eq m.id last then (m ∷ [], m.id, true) else (m ∷ rest.0, rest.1, rest.2)

abbrev pub prepend : List Message → Option (List Message) → Option (List Message)
prepend got none = none
prepend got (some more) = some (got ++ more)

-- The loop of `replayUntilLastID`, by the fuel; `x_read` is the `XREAD` of a round, `none` where it
-- has nothing.
unfoldable pub replay_loop :
    (ℕ → Bytes → Option (List Message)) → ℕ → Bytes → Bytes → Option (List Message)
replay_loop x_read zero last current = none
replay_loop x_read (suc fuel) last current = elim (x_read fuel current) [
  | none ↦ some []
  | some [] ↦ some []
  | some (m ∷ ms) ↦
      let (got, current', done) = receive last current (m ∷ ms) in
      let more = replay_loop x_read fuel last current' in
      if done then some got else prepend got more
]

unfoldable pub replay_until_last_id :
    (ℕ → Bytes → Option (List Message)) → ℕ → Bytes → Bytes → Option (List Message)
replay_until_last_id x_read fuel start last =
    if bytes_eq last (codes "0") || is_empty last
    then some []
    else if bytes_eq start (codes "$") || is_empty start
    then some []
    else replay_loop x_read fuel last start

-- Where the consumer group of a stream stands: untouched, as it was where there is one (`none`), or
-- made anew at an id.
pub record Listening : Type 0 where
  pub replayed : List Message
  pub group : Option Bytes

-- `XGroupCreateMkStream` leaves a group that is there.
abbrev pub create_group : Bool → Bytes → Option Bytes
create_group exists id = if exists then none else some id

-- `StartListen` for one stream: `found` is whether this consumer is in the group, `exists` whether
-- there is a group.
unfoldable pub start_stream :
    (ℕ → Bytes → Option (List Message)) → ℕ → Bool → Bool → StreamType → Option Listening
start_stream x_read fuel found exists st =
    if not st.inited
    then some (record { replayed = []; group = create_group exists st.start })
    else elim st.mode [
      | fanout ↦
          some
            (record { replayed = []; group = if found then none else create_group exists st.start })
      | replay ↦
          if found
          then some (record { replayed = []; group = none })
          else elim (replay_until_last_id x_read fuel st.start st.last_id) [
            | none ↦ none
            | some ms ↦ some (record { replayed = ms; group = create_group exists st.start })
          ]
      | replay_all ↦ elim (replay_until_last_id x_read fuel st.start st.last_id) [
        | none ↦ none
        | some ms ↦ some (record { replayed = ms; group = some st.last_id })
      ]
    ]

-- The values that `call_stream` adds to the stream; `injson` is the JSON of the input, `none` its
-- error.
unfoldable pub call_stream : Bytes → Bytes → Option Bytes → Option Message
call_stream version id injson = elim injson [
  | none ↦ none
  | some json ↦
      some (record { id = id; input = some json; version = some (handler_version version) })
]

-- What the listener does with a message: it refuses it, or invokes the function.
pub data Heard (T : Type 0) : Type 0 where
  stream_input_decode_failed : Heard T
  invoked : JobInput T → Heard T

-- `marshals` is whether the upgrade of an input can be marshalled.
module _ {T : Type 0} (zero_input : T) (decode : Bytes → Option T)
    (marshals : Bytes → Bytes → Bool) where
  -- The input after the listener's own upgrade: it is replaced only where that cannot be marshalled,
  -- by what the failed call gives.
  unfoldable pub remarshalled : Bytes → Bytes → Bool → Bytes
  remarshalled sent injson updated =
      if updated then (if marshals sent injson then injson else []) else injson

  -- `rst.listener`.
  unfoldable pub stream_listener :
      Bytes → Option (Bytes → Bytes → Bool × Option T) → Message → Heard T
  unfolding remarshalled
  stream_listener version on_input_upgrade msg = elim msg.input [
    | none ↦ stream_input_decode_failed
    | some injson ↦ elim msg.version [
      | none ↦ stream_input_decode_failed
      | some sent ↦
          if has_major_or_minor_version_diff sent (handler_version version)
          then elim on_input_upgrade [
            | none ↦ invoked panics
            | some on_upgrade ↦ invoked (
                job_input zero_input decode version (some on_upgrade) sent
                  (remarshalled sent injson (on_upgrade sent injson).0))
          ]
          else invoked (job_input zero_input decode version on_input_upgrade sent injson)
    ]
  ]
