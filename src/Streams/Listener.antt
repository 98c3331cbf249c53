-- ===== src/Streams/Listener.antt =====
-- What the listener of a stream makes of a message, for typedhandler_job_redis.go.
use allino.Base.{◌≡◌, ap, Bool, true, Option, none, some, arith}
use allino.Base.Bytes.{Bytes}
use allino.JobIds.{handler_version}
use allino.JobIds.Versions.{diff_refl}
use allino.Calls.Worker.{input, job_input, decoded_input}
use allino.Streams.{Message, call_stream, invoked, remarshalled, stream_listener}

module _ {T : Type 0} (zero_input : T) (decode : Bytes → Option T)
    (marshals : Bytes → Bytes → Bool) where
  remarshalled_same :
      (sent injson : Bytes) (updated : Bool)
      → marshals sent injson ≡ true
      → remarshalled zero_input decode marshals sent injson updated ≡ injson
  unfolding remarshalled
  remarshalled_same sent injson updated ok = ground arith

  -- As a worker.
  pub stream_listener-job_input :
      (version : Bytes) (on_input_upgrade : Option (Bytes → Bytes → Bool × Option T))
      (msg : Message) (sent injson : Bytes)
      → msg.input ≡ some injson
      → msg.version ≡ some sent
      → marshals sent injson ≡ true
      → stream_listener zero_input decode marshals version on_input_upgrade msg
        ≡ invoked (job_input zero_input decode version on_input_upgrade sent injson)
  unfolding stream_listener job_input
  stream_listener-job_input version none msg sent injson given stamped ok = ground arith
  stream_listener-job_input version (some on_upgrade) msg sent injson given stamped ok =
      let kept = remarshalled_same sent injson (on_upgrade sent injson).0 ok in
      ground (arith, ap (job_input zero_input decode version (some on_upgrade) sent) kept)

  -- The listener of a stream invokes the function with the very input of a call that was added
  -- to the stream at the same version of the function, where JSON gives it back.
  pub stream_listener-call_stream :
      (version id json : Bytes) (t : T)
      (on_input_upgrade : Option (Bytes → Bytes → Bool × Option T)) (msg : Message)
      → call_stream version id (some json) ≡ some msg
      → decode json ≡ some t
      → stream_listener zero_input decode marshals version on_input_upgrade msg ≡ invoked (input t)
  unfolding call_stream stream_listener job_input decoded_input
  stream_listener-call_stream version id json t on_input_upgrade msg called decoded =
      let same = diff_refl (handler_version version) in ground arith
