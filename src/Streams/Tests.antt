-- ===== src/Streams/Tests.antt =====
-- Streams with three messages, for typedhandler_job_redis.go.
use allino.Base.{ℕ, ◌≡◌, refl, true, false, List, [], ◌∷◌, Option, none, some, if◌then◌else◌, arith}
use allino.Base.Bytes.{Bytes, bytes_eq, codes}
use allino.Streams.{
  Message, StreamType, replay, replay_all, call_redis_init, inspect, stream_mode, start_stream,
}
use allino.Streams.Replay.{Reads, handled, start_stream-handled}

abbrev message : Bytes → Message
message id = record { id = id; input = some (codes "1"); version = some (codes "1.0.0") }

abbrev first : Message
first = message (codes "1-0")

abbrev second : Message
second = message (codes "2-0")

abbrev third : Message
third = message (codes "3-0")

-- The first read gives one message, every other one the two that follow.
abbrev x_read : ℕ → Bytes → Option (List Message)
x_read round id = if bytes_eq id (codes "0") then some (first ∷ []) else some (second ∷ third ∷ [])

reads : Reads x_read (codes "0") (first ∷ []) second (third ∷ [])
reads round [] m rest e = (0, ground arith)
reads round (b ∷ []) m rest e = (1, ground arith)
reads round (b ∷ d ∷ []) m rest e = absurd (ground arith)
reads round (b ∷ d ∷ f ∷ before) m rest e = absurd (ground arith)

abbrev deliver : Bytes → List Message
deliver id = if bytes_eq id (codes "0") then first ∷ second ∷ third ∷ [] else third ∷ []

abbrev mail : StreamType
mail = record {
  stream = codes "allino:mail";
  ttl = 0;
  mode = replay;
  start = codes "0";
  inited = true;
  last_id = codes "2-0";
}

mail_inits :
    call_redis_init (codes "allino:") (codes "mail") (codes "replay") 0 none
    ≡ some (record mail { inited = false; last_id = [] })
unfolding call_redis_init stream_mode
mail_inits = refl

mail_is_found : inspect (some (codes "2-0")) (record mail { inited = false; last_id = [] }) ≡ mail
mail_is_found = refl

start_stream-handled_example :
    (handled deliver (start_stream x_read 2 false false (record mail { mode = replay_all }))
      ≡ some (first ∷ second ∷ third ∷ []))
    × (handled deliver (start_stream x_read 2 false false (record mail { mode = replay }))
        ≡ some (first ∷ second ∷ first ∷ second ∷ third ∷ []))
start_stream-handled_example =
    start_stream-handled x_read deliver 2 (first ∷ []) (third ∷ []) second mail reads refl refl
      (refl, tt) (omega arith) refl refl refl refl

abbrev decode : Bytes → Option Bytes
decode json = some json
