-- ===== src/Protocol/Frame.antt =====
-- protocol/frame.rs: the assembly buffer of length-prefixed frames.
pub mod Buffer
use rusp.Prelude.{
  ℕ, ◌+◌, ◌-◌, ◌*◌, ◌^◌, ◌%◌, max, Bool, Option, none, some, List, [], ◌∷◌, ◌++◌, length, take,
  drop, replicate, ltb, leb, ◌==◌, if◌then◌else◌, Result, ok, err, be_bytes,
}
use rusp.Error.{Error, frame_too_large, protocol}

abbrev pub len_prefix : ℕ
len_prefix = 4

abbrev pub default_max_frame : ℕ
default_max_frame = 1024 * 1024

abbrev pub min_max_frame : ℕ
min_max_frame = 32 * 1024

-- `bytes` is the whole allocation; `len` counts what is used, the prefix included.
pub record FrameBuf : Type 0 where
  pub bytes : List ℕ
  pub len : ℕ

-- `v[i .. i + data.len()].copy_from_slice(data)`, for a range inside `v`.
unfoldable pub write_at : ℕ → List ℕ → List ℕ → List ℕ
write_at i written v = take i v ++ (written ++ drop (i + length written) v)

unfoldable pub with_capacity : ℕ → FrameBuf
with_capacity n = record { bytes = replicate (len_prefix + n) 0; len = len_prefix }

unfoldable pub clear : FrameBuf → FrameBuf
clear b = record b { len = len_prefix }

unfoldable pub payload_len : FrameBuf → ℕ
payload_len b = b.len - len_prefix

unfoldable pub is_empty : FrameBuf → Bool
is_empty b = b.len == len_prefix

unfoldable pub payload : FrameBuf → List ℕ
payload b = drop len_prefix (take b.len b.bytes)

-- What a caller leaves in the slice of `payload_mut`: bytes of the payload's own length.
unfoldable pub payload_mut : FrameBuf → List ℕ → FrameBuf
payload_mut b written = record b { bytes = write_at len_prefix written b.bytes }

-- `Vec::resize(target, 0)` after growth; `ensure` never shrinks the allocation.
unfoldable pub ensure : FrameBuf → ℕ → FrameBuf
ensure b total =
    if ltb (length b.bytes) total
    then record b {
      bytes = b.bytes ++ replicate (max total (length b.bytes * 2) - length b.bytes) 0;
    }
    else b

unfoldable pub push_slice : FrameBuf → List ℕ → FrameBuf
push_slice b written =
    let grown = ensure b (b.len + length written) in
    record { bytes = write_at b.len written grown.bytes; len = b.len + length written }

unfoldable pub push_u8 : FrameBuf → ℕ → FrameBuf
push_u8 b byte =
    let grown = ensure b (b.len + 1) in
    record { bytes = write_at b.len (byte ∷ []) grown.bytes; len = b.len + 1 }

-- The slice that `claim` hands back begins at the second component of the result.
unfoldable pub claim : FrameBuf → ℕ → FrameBuf × ℕ
claim b n =
    let grown = ensure b (b.len + n) in (record { bytes = grown.bytes; len = b.len + n }, b.len)

-- A write through a slice that `claim` handed back.
unfoldable pub fill : FrameBuf → ℕ → List ℕ → FrameBuf
fill b start written = record b { bytes = write_at start written b.bytes }

-- `none` is the panic of the assertion.
unfoldable pub set_payload_len : FrameBuf → ℕ → Option FrameBuf
set_payload_len b n =
    if leb (len_prefix + n) (length b.bytes) then some (record b { len = len_prefix + n }) else none

unfoldable pub spare_capacity : FrameBuf → ℕ
spare_capacity b = length b.bytes - b.len

-- The result is the frame to write; the buffer keeps the stamped prefix.
unfoldable pub finish : FrameBuf → ℕ → Result Error (List ℕ) × FrameBuf
finish b max_frame =
    let n = payload_len b in
    let stamped = write_at 0 (be_bytes 4 (n % 2 ^ 32)) b.bytes in
    if ltb max_frame n
    then (err (protocol (frame_too_large n max_frame)), b)
    else (ok (take b.len stamped), record b { bytes = stamped })
