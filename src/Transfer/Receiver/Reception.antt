-- ===== src/Transfer/Receiver/Reception.antt =====
-- transfer/receiver.rs: a whole file, from its first chunk to its end.
use rusp.Prelude.{
  ℕ, ◌+◌, ◌^◌, ◌%◌, ◌≤◌, ◌≡◌, refl, sym, ap, ◌∙◌, subst, Option, some, none, List, [], ◌∷◌, ◌++◌,
  length, append_assoc, append-nil, ◌==◌, Bool-cases, inl, inr, Result, ok, err, arith, ==_iff,
}
use rusp.Error.{Error, Text}
use rusp.Protocol.Message.{Hash32, Entry, Offer, Incoming, control, data_chunk, file_end}
use rusp.Files.Disk.{Disk, IsDisk}
use rusp.Transfer.Progress.{advanced}
use rusp.Transfer.Receiver.{ReceiveOptions, Plan, entry_at}
use rusp.Transfer.Receiver.Files.{Active, active_write, active_finish}
use rusp.Transfer.Receiver.Run.{
  Receiving, Flow, goes_on, done, handle, on_data, wrote, on_file_end, end_entry, finished, emit,
}
use rusp.Transfer.Receiver.Integrity.{Receives, active_write_lem, active_finish_lem, marked_lem}

-- Chunks, with the offsets that the sender gives them, as messages and as the bytes they carry.
unfoldable pub data_messages : List (ℕ × List ℕ) → List Incoming
data_messages [] = []
data_messages ((offset, bytes) ∷ rest) = data_chunk offset bytes ∷ data_messages rest

unfoldable pub joined : List (ℕ × List ℕ) → List ℕ
joined [] = []
joined ((_, bytes) ∷ rest) = bytes ++ joined rest

module _ {D : Type 0} (disk : Disk D) (offer : Offer) (plan : Plan) (options : ReceiveOptions)
    (chunk_limit : ℕ) where
  -- The loop on the messages that arrive one after the other, up to the first error or the end.
  unfoldable pub step_on :
      (Receiving D → Result Error Flow × Receiving D)
      → Result Error Flow × Receiving D
      → Result Error Flow × Receiving D
  step_on next (ok goes_on, st) = next st
  step_on next (ok done, st) = (ok done, st)
  step_on next (err e, st) = (err e, st)

  unfoldable pub feed : List Incoming → Receiving D → Result Error Flow × Receiving D
  feed [] st = (ok goes_on, st)
  feed (m ∷ ms) st = step_on (feed ms) (handle disk offer plan options chunk_limit m st)

  step_on_lem :
      (next : Receiving D → Result Error Flow × Receiving D) (r : Result Error Flow × Receiving D)
      → (step_on next r).0 ≡ ok goes_on
      → (r.0 ≡ ok goes_on) × (step_on next r ≡ next r.1)
  unfolding step_on
  step_on_lem next (ok goes_on, st) h = (refl, refl)
  step_on_lem next (ok done, st) h = cc
  step_on_lem next (err e, st) h = cc

  wrote_lem :
      (n : ℕ) (st : Receiving D) (w : Result Error (Unit {0}) × Active × D)
      → (wrote disk offer plan options chunk_limit n st w).0 ≡ ok goes_on
      → (w.0 ≡ ok tt)
        × (wrote disk offer plan options chunk_limit n st w ≡ (
          ok goes_on,
          emit disk offer plan options chunk_limit
              (advanced n)
              (record st { current = some w.1; on_disk = w.2 }),
        ))
  unfolding wrote
  wrote_lem n st (ok _, a, d) h = (refl, refl)
  wrote_lem n st (err e, a, d) h = cc

  module _ (contents : Text → D → Option (List ℕ)) where
    -- The file that was announced stands under its final name, verified and counted.
    abbrev pub IsStored : Text → List ℕ → Hash32 → ℕ → Receiving D → Receiving D → Type 0
    IsStored path bytes hash size before after =
        (contents path after.on_disk ≡ some bytes)
        × (disk.blake3 bytes ≡ hash)
        × (length bytes ≡ size)
        × (after.current ≡ none)
        × (after.report.files ≡ (before.report.files + 1) % 2 ^ 32)
        × (after.report.bytes ≡ (before.report.bytes + size) % 2 ^ 64)

    finished_lem :
        (a : Active) (hash : Hash32) (size : ℕ) (entry : Entry) (st : Receiving D)
        → IsDisk disk contents
        → Receives disk contents a st.on_disk
        → let (flow, st') =
            finished disk offer plan options chunk_limit a.index size entry
              (record st { current = none })
              (active_finish disk a hash size st.on_disk) in
          flow ≡ ok goes_on → IsStored a.writer.final_path a.writer.absorbed hash size st st'
    unfolding finished
    finished_lem a hash size entry st law h good =
        elim (active_finish_lem disk contents a hash size st.on_disk law h) [
          | inr (e, failed, _) ↦ cc (rw failed at good)
          | inl (stored, there, hashed, total) ↦
              let d = (active_finish disk a hash size st.on_disk).1 in
              let (current, files, bytes, kept) =
                marked_lem disk contents offer plan options chunk_limit a.index size entry
                  (record st { current = none; on_disk = d }) a.writer.final_path d law
                  (rw stored at good) in
              rw stored (kept a.writer.final_path ∙ there, hashed, total, current, files, bytes)
        ]

    end_entry_lem :
        (a : Active) (hash : Hash32) (size : ℕ) (found : Result Error Entry) (st : Receiving D)
        → IsDisk disk contents
        → Receives disk contents a st.on_disk
        → let (flow, st') =
            end_entry disk offer plan options chunk_limit a.index hash size a found st in
          flow ≡ ok goes_on → IsStored a.writer.final_path a.writer.absorbed hash size st st'
    unfolding end_entry
    end_entry_lem a hash size (err e) st law h good = cc
    end_entry_lem a hash size (ok entry) st law h good =
        finished_lem a hash size entry st law h good

    file_end_lem :
        (index : ℕ) (hash : Hash32) (size : ℕ) (a : Active) (st : Receiving D)
        → IsDisk disk contents
        → Receives disk contents a st.on_disk
        → let (flow, st') =
            on_file_end disk offer plan options chunk_limit index hash size (some a) st in
          flow ≡ ok goes_on
          → IsStored a.writer.final_path a.writer.absorbed hash size st st' × (index ≡ a.index)
    unfolding on_file_end
    file_end_lem index hash size a st law h good = elim (Bool-cases (a.index == index)) [
      | inr differ ↦ cc (rw differ at good)
      | inl same ↦
          let e : index ≡ a.index = sym ((==_iff a.index index).0 same) in
          rw (same, e)
            (
              end_entry_lem a hash size (entry_at offer a.index) st law h (rw (same, e) at good),
              refl,
            )
    ]

    IsStored-ap :
        {path path' : Text} {bytes bytes' : List ℕ}
        → path ≡ path'
        → bytes ≡ bytes'
        → (hash : Hash32) (size : ℕ) (before after : Receiving D)
        → IsStored path bytes hash size before after
        → IsStored path' bytes' hash size before after
    IsStored-ap {path' = path'} {bytes = bytes} p q hash size before after h =
        subst (λ b. IsStored path' b hash size before after) q
          (subst (λ t. IsStored t bytes hash size before after) p h)

    -- Whatever chunks and whatever end a sender sends for a file that has been started: if the loop
    -- takes them all, then just the bytes of the chunks, in their order, stand behind what had been
    -- written before under the final name; they have the announced digest and size and are no more
    -- than was offered for that entry; and the report counts one file and its bytes more.
    pub received_file :
        (chunks : List (ℕ × List ℕ)) (index : ℕ) (hash : Hash32) (size : ℕ) (a : Active)
        (st : Receiving D)
        → IsDisk disk contents
        → Receives disk contents a st.on_disk
        → st.current ≡ some a
        → (feed (data_messages chunks ++ control (file_end index hash size) ∷ []) st).0 ≡ ok goes_on
        → IsStored a.writer.final_path
            (a.writer.absorbed ++ joined chunks)
            hash
            size
            st
            (feed (data_messages chunks ++ control (file_end index hash size) ∷ []) st).1
          × (index ≡ a.index)
          × (size ≤ a.limit)
    unfolding feed data_messages joined handle on_data emit
    received_file [] index hash size a st law h now good =
        let r = λ (c : Option Active).
          on_file_end disk offer plan options chunk_limit index hash size c st in
        let same = ap r now in
        let (first, e) = step_on_lem (λ x. (ok goes_on, x)) (r st.current) good in
        let (got, place) =
          file_end_lem index hash size a st law h (ap (λ q. q.0) (sym same) ∙ first) in
        rw (e, same, append-nil a.writer.absorbed)
          (got, place, omega (arith, h.counted, h.within, got))
    received_file ((offset, bytes) ∷ rest) index hash size a st law h now good =
        let written = active_write disk a offset bytes chunk_limit st.on_disk in
        let same = ap (λ c. on_data disk offer plan options chunk_limit offset bytes c st) now in
        let (first, e) = step_on_lem _ _ good in
        let (taken, went) =
          wrote_lem (length bytes) st written (ap (λ q. q.0) (sym same) ∙ first) in
        let (h', appended, final, place, limit, _, _, _) =
          active_write_lem disk contents a offset chunk_limit bytes st.on_disk law h taken in
        let messages = data_messages rest ++ control (file_end index hash size) ∷ [] in
        let st' =
          emit disk offer plan options chunk_limit (advanced (length bytes))
            (record st { current = some written.1; on_disk = written.2 }) in
        let on = e ∙ ap (λ q. feed messages q.1) (same ∙ went) in
        let (got, place', within) =
          received_file rest index hash size written.1 st' law h' refl
            (ap (λ q. q.0) (sym on) ∙ good) in
        rw on (
          IsStored-ap final
              (ap (λ l. l ++ joined rest) appended
                ∙ append_assoc a.writer.absorbed bytes (joined rest))
              hash size st (feed messages st').1 got,
          place' ∙ place,
          omega (arith, within, limit),
        )
