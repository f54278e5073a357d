-- ===== src/Transfer/Receiver/Files.antt =====
-- transfer/receiver.rs: the plan for an offer, and the file that is being written.
use rusp.Prelude.{
  ℕ, suc, ◌+◌, ◌^◌, ◌%◌, ◌-◌, min, not, List, [], ◌∷◌, ◌++◌, length, ltb, ◌==◌, if◌then◌else◌,
  Result, ok, err, map_err, Act,
}
use rusp.Prelude.Steps.{◌>>=◌, pure, lift}
use rusp.Error.{
  Error, TransferError, Text, Message, IoError, transfer, bad_manifest, size_mismatch, lit, number,
}
use rusp.Config.{ConflictPolicy}
use rusp.Protocol.Message.{Entry, Offer, Hash32, is_unknown, is_directory}
use rusp.Files.Disk.{Disk, FileType}
use rusp.Files.SafePath.Resolve.{resolve}
use rusp.Files.Writer.{FileWriter, write, discard, commit}
use rusp.Transfer.Receiver.{ReceiveOptions, Plan, empty_plan}

pub record Active : Type 0 where
  pub index : ℕ
  pub limit : ℕ
  pub received : ℕ
  pub writer : FileWriter

unfoldable pub skip : Plan → ℕ → Message → Plan
skip plan index reason = record plan { skipped = plan.skipped ++ (index, reason) ∷ [] }

unfoldable pub want_directory : Plan → ℕ → Plan
want_directory plan index = record plan {
  wanted = plan.wanted ++ index ∷ [];
  directories = (plan.directories + 1) % 2 ^ 32;
}

-- The sum of the sizes wraps in a release build.
unfoldable pub want_file : Plan → ℕ → Entry → Plan
want_file plan index entry = record plan {
  wanted = plan.wanted ++ index ∷ [];
  files = (plan.files + 1) % 2 ^ 32;
  bytes = (plan.bytes + entry.size) % 2 ^ 64;
}

unfoldable pub plan_file :
    Plan → ℕ → Entry → Text → ConflictPolicy → Result IoError FileType → Result Error Plan
plan_file plan index entry target ConflictPolicy.skip (ok _) =
    ok (skip plan index (lit "already exists" ∷ []))
plan_file plan index entry target ConflictPolicy.fail (ok _) =
    err (transfer (TransferError.exists target))
plan_file plan index entry target _ _ = ok (want_file plan index entry)

module _ {D : Type 0} (disk : Disk D) where
  unfoldable pub plan_target : Plan → ℕ → Entry → ConflictPolicy → Text → Act Error D Plan
  plan_target plan index entry policy target d =
      let (found, d') = disk.symlink_metadata target d in
      (plan_file plan index entry target policy found, d')

  unfoldable pub plan_entry : ReceiveOptions → ℕ → Entry → Plan → Act Error D Plan
  plan_entry options index entry plan =
      if is_unknown entry.kind
      then pure
          (skip plan index (lit "this build does not understand what kind of item this is" ∷ []))
      else if is_directory entry.kind
      then pure (want_directory plan index)
      else do
        target ← lift (map_err transfer (resolve options.output_dir entry.path))
        plan_target plan index entry options.on_conflict target

  unfoldable pub plan_entries : ReceiveOptions → ℕ → List Entry → Plan → Act Error D Plan
  plan_entries options n [] plan = pure plan
  plan_entries options n (entry ∷ rest) plan = do
    next ← plan_entry options (n % 2 ^ 32) entry plan
    plan_entries options (suc n) rest next

  -- Work out what would happen, without writing anything.
  unfoldable pub plan_for : Offer → ReceiveOptions → Act Error D Plan
  plan_for offer options = plan_entries options 0 offer.entries empty_plan

  unfoldable pub after_active_write :
      Active → ℕ → Result Error (Unit {0}) × FileWriter × D → Result Error (Unit {0}) × Active × D
  after_active_write a after (ok _, w, d) = (ok tt, record a { received = after; writer = w }, d)
  after_active_write a after (err e, w, d) = (err e, record a { writer = w }, d)

  -- Active::write
  unfoldable pub active_write : Active → ℕ → List ℕ → ℕ → D → Result Error (Unit {0}) × Active × D
  active_write a offset bytes chunk_limit d =
      let after = min (a.received + length bytes) (2 ^ 64 - 1) in
      if ltb chunk_limit (length bytes)
      then (
        err (
            transfer (
              bad_manifest (
                lit "a "
                ∷ number (length bytes)
                ∷ lit " byte chunk exceeds the negotiated limit of "
                ∷ number chunk_limit
                ∷ []))),
        a,
        d,
      )
      else if not (offset == a.received)
      then (
        err (
            transfer (
              bad_manifest (
                lit "data arrived for offset "
                ∷ number offset
                ∷ lit " but "
                ∷ number a.received
                ∷ lit " was expected"
                ∷ []))),
        a,
        d,
      )
      else if ltb a.limit after
      then (err (transfer (size_mismatch a.writer.final_path a.limit after)), a, d)
      else after_active_write a after (write disk a.writer bytes d)

  -- Active::finish
  unfoldable pub active_finish : Active → Hash32 → ℕ → Act Error D Text
  active_finish a hash size d =
      if not (size == a.received)
      then (
        err (transfer (size_mismatch a.writer.final_path size a.received)),
        discard disk a.writer d,
      )
      else commit disk a.writer hash size d
