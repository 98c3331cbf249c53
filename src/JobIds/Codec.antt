-- ===== src/JobIds/Codec.antt =====
-- Job ids of typedhandler_job_utils.go, written and read back.
use allino.Base.{
  suc, ◌+◌, ◌≡◌, ◌≢◌, refl, ap, ◌∙◌, List, [], ◌∷◌, ◌++◌, if◌then◌else◌, length, arith, ◌==◌,
  dec_eq, ==_ne,
}
use allino.Base.Bytes.{Bytes, codes}
use allino.Base.Split.{
  split, count_byte, split-append, split_whole, length-split, count_byte-append,
}
use allino.Trie.{has_prefix}
use allino.JobIds.{
  colon, Decoded, decoded, failed, invalid_format, id_part, encode_job_id, decode_parts,
  decode_job_id,
}

-- A decoded id, where the last two parts hold no colon.
abbrev pub read_back : Bytes → Bytes → Decoded
read_back handler id =
    if count_byte colon handler + count_byte colon id == 0
    then decoded (record { version = codes "v1"; backend = []; handler = handler; id = id })
    else failed invalid_format

decode-long : (parts : List Bytes) → length parts ≢ 4 → decode_parts parts ≡ failed invalid_format
unfolding decode_parts
decode-long [] h = refl
decode-long (a ∷ []) h = refl
decode-long (a ∷ b ∷ []) h = refl
decode-long (a ∷ b ∷ c ∷ []) h = refl
decode-long (a ∷ b ∷ c ∷ d ∷ []) h = absurd (h (omega arith))
decode-long (a ∷ b ∷ c ∷ d ∷ e ∷ r) h = refl

-- DecodeJobID of the job id that encodeJobID makes gives its version, handler and last part
-- where neither of the last two holds a colon, and the error of an invalid format where one
-- does, whatever the hash, the idempotency key, the input and the marker.
pub decode_job_id-encode_job_id :
    (hash : Bytes → Bytes) (handler idempotency_key injson marker : Bytes)
    → decode_job_id (encode_job_id hash handler idempotency_key injson marker)
      ≡ read_back handler (id_part hash handler idempotency_key injson marker)
unfolding decode_job_id encode_job_id decode_parts has_prefix
decode_job_id-encode_job_id hash handler idempotency_key injson marker =
    let id = id_part hash handler idempotency_key injson marker in
    let colons = count_byte colon handler + count_byte colon id in
    let parts = split colon (handler ++ colon ∷ id) in
    elim (dec_eq colons 0) [
      | yes e ↦
          rw
            (
              split-append colon handler id (omega (arith, e)),
              split_whole colon id (omega (arith, e)),
              e,
            )
            refl
      | no ne ↦
          let many : length parts ≡ suc (count_byte colon handler + suc (count_byte colon id)) =
            length-split colon (handler ++ colon ∷ id)
            ∙ ap suc (count_byte-append colon handler (colon ∷ id)) in
          decode-long (codes "job" ∷ codes "v1" ∷ parts) (λ q. ne (omega (arith, q, many)))
          ∙ rw (==_ne colons 0 ne) refl
    ]
