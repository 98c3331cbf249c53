-- ===== src/JobIds/Tests.antt =====
-- Runs of typedhandler_job_utils.go, and instances of its theorems.
use allino.Base.{◌≡◌, refl, [], some}
use allino.Base.Bytes.{Bytes, codes}
use allino.Base.Int.{negsuc}
use allino.JobIds.{
  decoded, encode_job_id, decode_job_id, decode_parts, id_part, atoi, digits, number,
}
use allino.Trie.{has_prefix}
use allino.JobIds.Codec.{read_back, decode_job_id-encode_job_id}

abbrev hash : Bytes → Bytes
hash s = codes "ab12"

decode_run :
    decode_job_id (codes "job:v1:mail:k.m")
    ≡ decoded
        (record { version = codes "v1"; backend = []; handler = codes "mail"; id = codes "k.m" })
unfolding decode_job_id decode_parts has_prefix
decode_run = refl

atoi_run : atoi (codes "-12") ≡ some (negsuc 11)
unfolding atoi number digits
atoi_run = refl

decode_job_id-encode_job_id_example :
    decode_job_id (encode_job_id hash (codes "mail") (codes "k:1") (codes "in") [])
    ≡ read_back (codes "mail") (id_part hash (codes "mail") (codes "k:1") (codes "in") [])
decode_job_id-encode_job_id_example =
    decode_job_id-encode_job_id hash (codes "mail") (codes "k:1") (codes "in") []
