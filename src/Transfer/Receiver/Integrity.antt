-- ===== src/Transfer/Receiver/Integrity.antt =====
-- transfer/receiver.rs: what is on the disk when a file was received.
use rusp.Prelude.{
  ℕ, ◌+◌, ◌-◌, ◌^◌, ◌%◌, ◌≤◌, ◌<◌, ◌≡◌, ◌≢◌, ◌⊎◌, refl, sym, ap, ◌∙◌, min, Option, some, none, List,
  ◌++◌, length, length-append, ltb, ◌==◌, Bool-cases, inl, inr, Result-cases, ok, err, arith,
  ==_iff,
}
use rusp.Error.{Error, Text}
use rusp.Protocol.Message.{Hash32, Entry, Offer}
use rusp.Files.Disk.{Disk, IsDisk}
use rusp.Files.Writer.{write, discard, at_path}
use rusp.Files.Writer.Commit.{Holds, write-Holds, commit-Outcome}
use rusp.Files.Writer.Create.{is_executable, apply_mode, mark_executable}
use rusp.Transfer.Receiver.{ReceiveOptions, Plan}
use rusp.Transfer.Receiver.Files.{Active, active_write, after_active_write, active_finish}
use rusp.Transfer.Receiver.Run.{Receiving, goes_on, marked, count_file, emit}

module _ {D : Type 0} (disk : Disk D) (contents : Text → D → Option (List ℕ)) where
  -- The part file holds what has been received, which is no more than was offered; and the size that
  -- was offered is not the largest of 64 bits, where `saturating_add` stops counting.
  pub record Receives (a : Active) (d : D) : Type 0 where
    pub holds : Holds disk contents a.writer d
    pub counted : a.received ≡ length a.writer.absorbed
    pub within : a.received ≤ a.limit
    pub small : a.limit + 1 < 2 ^ 64

  write_done :
      (a : Active) (after : ℕ) (bytes : List ℕ) (d : D)
      → IsDisk disk contents
      → Receives a d
      → after ≡ a.received + length bytes
      → after ≤ a.limit
      → (after_active_write disk a after (write disk a.writer bytes d)).0 ≡ ok tt
      → let (_, a', d') = after_active_write disk a after (write disk a.writer bytes d) in
        Receives a' d'
        × (a'.writer.absorbed ≡ a.writer.absorbed ++ bytes)
        × (a'.writer.final_path ≡ a.writer.final_path)
        × (a'.index ≡ a.index)
        × (a'.limit ≡ a.limit)
  unfolding after_active_write
  write_done a after bytes d law h sum fits good =
      elim (Result-cases (write disk a.writer bytes d).0) [
        | inr (e, failed) ↦ cc (rw failed at good)
        | inl (_, wrote') ↦
            let (held, appended, final, part) =
              write-Holds disk contents a.writer bytes d law h.holds wrote' in
            rw wrote' (
              record {
                holds = held;
                counted = omega (
                  arith,
                  sum,
                  h.counted,
                  ap length appended,
                  length-append a.writer.absorbed bytes,
                );
                within = fits;
                small = h.small;
              },
              appended,
              final,
              refl,
              refl,
            )
      ]

  -- A chunk is taken only at the offset that follows what is there, within the negotiated chunk size
  -- and within the size in the manifest; then it stands behind what was there.
  pub active_write_lem :
      (a : Active) (offset chunk_limit : ℕ) (bytes : List ℕ) (d : D)
      → IsDisk disk contents
      → Receives a d
      → (active_write disk a offset bytes chunk_limit d).0 ≡ ok tt
      → let (_, a', d') = active_write disk a offset bytes chunk_limit d in
        Receives a' d'
        × (a'.writer.absorbed ≡ a.writer.absorbed ++ bytes)
        × (a'.writer.final_path ≡ a.writer.final_path)
        × (a'.index ≡ a.index)
        × (a'.limit ≡ a.limit)
        × (offset ≡ length a.writer.absorbed)
        × (length bytes ≤ chunk_limit)
        × (length a.writer.absorbed + length bytes ≤ a.limit)
  unfolding active_write
  active_write_lem a offset chunk_limit bytes d law h good =
      elim (Bool-cases (ltb chunk_limit (length bytes))) [
        | inl large ↦ cc (rw large at good)
        | inr short ↦ elim (Bool-cases (offset == a.received)) [
          | inr elsewhere ↦ cc (rw (short, elsewhere) at good)
          | inl here ↦
              elim (Bool-cases (ltb a.limit (min (a.received + length bytes) (2 ^ 64 - 1)))) [
                | inl over ↦ cc (rw (short, here, over) at good)
                | inr fits ↦
                    let after = min (a.received + length bytes) (2 ^ 64 - 1) in
                    let bound : after ≤ a.limit = ground arith in
                    let sum : after ≡ a.received + length bytes = omega (arith, h.small, bound) in
                    let (received, appended, final, index, limit) =
                      write_done a after bytes d law h sum bound (rw (short, here, fits) at good) in
                    rw (short, here, fits)
                      (
                        received,
                        appended,
                        final,
                        index,
                        limit,
                        (==_iff offset a.received).0 here ∙ h.counted,
                        ground arith,
                        omega (arith, h.counted, sum, bound),
                      )
              ]
        ]
      ]

  -- A file that `finish` reports as received stands under its final name with just the bytes that
  -- arrived, and those have the digest and the size that the sender announced; if it reports an
  -- error, nothing but the part file has changed.
  pub active_finish_lem :
      (a : Active) (hash : Hash32) (size : ℕ) (d : D)
      → IsDisk disk contents
      → Receives a d
      → let (done', d') = active_finish disk a hash size d in
        ((done' ≡ ok a.writer.final_path)
          × (contents a.writer.final_path d' ≡ some a.writer.absorbed)
          × (disk.blake3 a.writer.absorbed ≡ hash)
          × (length a.writer.absorbed ≡ size))
        ⊎ ((e : Error) × (done' ≡ err e)
            × ((other : Text) → other ≢ a.writer.part_path → contents other d' ≡ contents other d))
  unfolding active_finish discard
  active_finish_lem a hash size d law h = elim (Bool-cases (size == a.received)) [
    | inr differ ↦ rw differ (inr (_, refl, λ other ne. law.removes a.writer.part_path other d ne))
    | inl same ↦
        let (cases, _) = commit-Outcome disk contents a.writer hash size d law h.holds in
        let total : length a.writer.absorbed ≡ size =
          sym h.counted ∙ sym ((==_iff size a.received).0 same) in
        rw same (elim cases [
          | inl (good, there, hashed, _) ↦ inl (good, there, hashed, total)
          | inr failed ↦ inr failed
        ])
  ]

  mark_executable_keeps :
      (path other : Text) (d : D)
      → IsDisk disk contents
      → contents other (mark_executable disk path d).1 ≡ contents other d
  unfolding mark_executable at_path
  mark_executable_keeps path other d law = elim (Result-cases (disk.mode path d).0) [
    | inl (m, got) ↦ rw got (law.set_mode_keeps path other _ _ ∙ law.mode_keeps path other d)
    | inr (e, failed) ↦ rw failed (law.mode_keeps path other d)
  ]

  pub apply_mode_keeps :
      (path other : Text) (mode : Option ℕ) (d : D)
      → IsDisk disk contents
      → contents other (apply_mode disk path mode d).1 ≡ contents other d
  unfolding apply_mode
  apply_mode_keeps path other none d law = refl
  apply_mode_keeps path other (some mode) d law = elim (Bool-cases (is_executable mode)) [
    | inr plain ↦ rw plain
    | inl executable ↦ rw executable (mark_executable_keeps path other d law)
  ]

  module _ (offer : Offer) (plan : Plan) (options : ReceiveOptions) (chunk_limit : ℕ) where
    -- What the loop has on the disk when it goes on behind the end of a file.
    pub marked_lem :
        (index size : ℕ) (entry : Entry) (st : Receiving D) (path : Text) (d : D)
        → IsDisk disk contents
        → let (flow, st') =
            marked disk offer plan options chunk_limit index size entry st
              (apply_mode disk path entry.mode d) in
          flow ≡ ok goes_on
          → (st'.current ≡ st.current)
            × (st'.report.files ≡ (st.report.files + 1) % 2 ^ 32)
            × (st'.report.bytes ≡ (st.report.bytes + size) % 2 ^ 64)
            × ((other : Text) → contents other st'.on_disk ≡ contents other d)
    unfolding marked count_file emit
    marked_lem index size entry st path d law good =
        elim (Result-cases (apply_mode disk path entry.mode d).0) [
          | inr (e, failed) ↦ cc (rw failed at good)
          | inl (_, applied) ↦
              rw applied (refl, refl, refl, λ other. apply_mode_keeps path other entry.mode d law)
        ]
