-- ===== src/Transfer/Sender.antt =====
-- transfer/sender.rs: the sending half, and the helpers that both halves use.
pub mod Selection
pub mod Send
pub mod Run
pub mod Stream
pub mod Reading
pub mod Chunks
pub mod Whole
use Prim.Native.String.{String}
use rusp.Prelude.{
  ℕ, zero, suc, ◌+◌, ◌-◌, max, min, Bool, false, Option, none, some, List, [], ◌∷◌, ltb, leb,
  if◌then◌else◌, Result, ok, err, ◌>>=◌, ◌>>◌, fail_if,
}
use rusp.Error.{
  Error, ProtocolError, TransferError, Text, Message, protocol, transfer, cancelled, bad_manifest,
  unexpected, peer, lit, shown, number,
}
use rusp.Protocol.Message.{FailureCode, failure_text}
use rusp.Protocol.Message.Codec.{data_header_len}
use rusp.Protocol.Version.{default_chunk_size}
use rusp.Crypto.Cipher.{tag_len}
use mathlib.Core.List.{◌++◌}

unfoldable pub cancel_check : Bool → Result Error (Unit {0})
cancel_check is_cancelled = fail_if is_cancelled cancelled

unfoldable pub peer_failure : FailureCode → Text → Error
peer_failure code message = protocol (peer (failure_text code ++ lit ": " ∷ shown message ∷ []))

unfoldable pub cancelled_by_peer : Option Text → Error
cancelled_by_peer reason = cancelled

unfoldable pub unexpected_message : String → String → Error
unexpected_message got expected = protocol (unexpected got expected)

unfoldable pub bad : {A : Type 0} → Message → Result Error A
bad why = err (transfer (bad_manifest why))

-- `previous.is_some_and(|p| p >= index)`
unfoldable pub not_after : Option ℕ → ℕ → Bool
not_after none index = false
not_after (some p) index = leb index p

unfoldable pub check_selection : ℕ → Option ℕ → List ℕ → Result Error (Unit {0})
check_selection entry_count previous [] = ok tt
check_selection entry_count previous (index ∷ rest) =
    let later = check_selection entry_count (some index) rest in
    if leb entry_count index
    then bad
        (lit "the other side asked for item " ∷ number index ∷ lit ", which was never offered" ∷ [])
    else if not_after previous index
    then bad (lit "the other side's selection is out of order or repeats itself" ∷ [])
    else later

-- Check a peer's selection before indexing anything with it.
unfoldable pub validate_selection : List ℕ → ℕ → Result Error (List ℕ)
validate_selection wanted entry_count = check_selection entry_count none wanted >> ok wanted

unfoldable pub frame_capacity : ℕ → ℕ
frame_capacity chunk_size =
    max chunk_size (min default_chunk_size chunk_size) + data_header_len + tag_len
