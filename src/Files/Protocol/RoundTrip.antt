-- ===== src/Files/Protocol/RoundTrip.antt =====
-- Laws of the protocol of homelink/files/protocol.py.
use homelink.Common.{ℕ, ◌-◌, ◌*◌, ◌≤◌, ◌<◌, ◌≡◌, ◌⊎◌, arith}
use homelink.Common.Exc.{ok}
use homelink.Common.Json.{str}
use homelink.Files.Protocol.{
  Codec, FileChunk, chunk-to_dict, chunk-from_dict, count_chunks, chunk_size,
}

-- A chunk survives the way through its message, for a Base64 decoder that undoes the encoder on
-- its content.
from_dict-to_dict :
    (codec : Codec) (c : FileChunk)
    → codec.b64decode (str (codec.b64encode c.content)) ≡ ok c.content
    → chunk-from_dict codec (chunk-to_dict codec c) ≡ ok c
unfolding chunk-from_dict chunk-to_dict
from_dict-to_dict codec c decodes = rw decodes

-- The chunks of a file are at least one, together hold the whole file, and when there are
-- several, all but the last do not.
pub count_chunks-bounds :
    (size : ℕ)
    → (1 ≤ count_chunks size)
      × (size ≤ count_chunks size * chunk_size)
      × ((count_chunks size ≡ 1) ⊎ ((count_chunks size - 1) * chunk_size < size))
unfolding count_chunks
count_chunks-bounds size = (omega arith, omega arith, ground arith)
