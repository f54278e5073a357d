-- ===== src/Transfer/Receiver.antt =====
-- transfer/receiver.rs: checking and planning an offer, and the file that is being received.
pub mod Files
pub mod Run
pub mod Session
pub mod Loop
pub mod Termination
pub mod Reception
pub mod Inspection
pub mod Integrity
use rusp.Prelude.{
  ℕ, ◌+◌, ◌^◌, ◌%◌, ◌*◌, ◌-◌, min, Bool, true, false, not, Option, none, some, List, [], ◌∷◌, ◌++◌,
  length, any, get_elem?, ltb, ◌==◌, if◌then◌else◌, text_eq, Result, ok, err, map_err, ok_or, ◌>>=◌,
  ◌>>◌, fail_if,
}
use rusp.Error.{
  Error, TransferError, Text, Message, transfer, from_transfer, bad_manifest, size_mismatch,
  integrity, unsafe_path, lit, shown, number,
}
use rusp.Config.{ConflictPolicy}
use rusp.Protocol.Message.{Entry, Offer, FailureCode, is_unknown, is_directory, is_file}
use rusp.Files.SafePath.{validate}
use rusp.Transfer.Sender.{bad}

abbrev pub max_entries : ℕ
max_entries = 1000000

pub record ReceiveOptions : Type 0 where
  pub output_dir : Text
  pub on_conflict : ConflictPolicy

pub record ReceiveReport : Type 0 where
  pub files : ℕ
  pub bytes : ℕ
  pub skipped : ℕ
  pub directories : ℕ
  pub output_dir : Text

pub record Plan : Type 0 where
  pub wanted : List ℕ
  pub skipped : List (ℕ × Message)
  pub files : ℕ
  pub bytes : ℕ
  pub directories : ℕ

unfoldable pub empty_plan : Plan
empty_plan = record { wanted = []; skipped = []; files = 0; bytes = 0; directories = 0 }

-- The set of the paths so far is the list of them.
unfoldable pub inspect_entries : List Text → List Entry → Result Error (Unit {0})
inspect_entries seen [] = ok tt
inspect_entries seen (entry ∷ rest) = do
  checked ← from_transfer (validate entry.path)
  fail_if (any (text_eq entry.path) seen) (
      transfer
        (bad_manifest (lit "`" ∷ shown entry.path ∷ lit "` appears twice in the offer" ∷ [])))
  inspect_entries (entry.path ∷ seen) rest

-- Check an offer before believing anything in it.
unfoldable pub inspect : Offer → Result Error (Unit {0})
inspect offer =
    if length offer.entries == 0
    then bad (lit "the offer is empty" ∷ [])
    else if ltb max_entries (length offer.entries)
    then bad (
        lit "the offer has "
        ∷ number (length offer.entries)
        ∷ lit " items, more than the limit of "
        ∷ number max_entries
        ∷ [])
    else inspect_entries [] offer.entries

unfoldable pub entry_at : Offer → ℕ → Result Error Entry
entry_at offer index = ok_or (get_elem? offer.entries index) (
    transfer (
      bad_manifest
        (lit "the sender referred to item " ∷ number index ∷ lit ", which does not exist" ∷ [])))

unfoldable pub transfer_code_for : TransferError → FailureCode
transfer_code_for (integrity _ _ _) = 3
transfer_code_for (unsafe_path _) = 5
transfer_code_for (TransferError.exists _) = 5
transfer_code_for (bad_manifest _) = 2
transfer_code_for (size_mismatch _ _ _) = 3
transfer_code_for _ = 1

unfoldable pub failure_code_for : Error → FailureCode
failure_code_for (transfer e) = transfer_code_for e
failure_code_for (Error.io _ _) = 4
failure_code_for (Error.protocol _) = 2
failure_code_for _ = 1
