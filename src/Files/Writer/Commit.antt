-- ===== src/Files/Writer/Commit.antt =====
-- files/writer.rs: what stands on the disk behind `write` and `commit`.
use rusp.Prelude.{
  ℕ, ◌^◌, ◌%◌, ◌≡◌, ◌≢◌, ◌⊎◌, refl, ◌∙◌, Bool, true, false, Option, some, List, ◌++◌, length,
  length-append, ◌==◌, if◌then◌else◌, text_eq, text_eq→eq, Bool-cases, inl, inr, Result,
  Result-cases, ok, err, arith, ==_iff,
}
use rusp.Prelude.Steps.{◌>>◌, pure}
use rusp.Error.{Error, Text}
use rusp.Files.Disk.{Disk, IsDisk}
use rusp.Files.Writer.{
  FileWriter, write, after_write, at_path, hash, discard, commit_body, dropping, commit,
}
use rusp.Protocol.Message.{Hash32}

module _ {D : Type 0} (disk : Disk D) (contents : Text → D → Option (List ℕ)) where
  -- The part file holds what the hasher has absorbed, and so many bytes were counted.
  pub record Holds (w : FileWriter) (d : D) : Type 0 where
    pub stored : contents w.part_path d ≡ some w.absorbed
    pub counted : w.written ≡ length w.absorbed % 2 ^ 64
    pub apart : w.final_path ≢ w.part_path

  pub write-Holds :
      (w : FileWriter) (bytes : List ℕ) (d : D)
      → IsDisk disk contents
      → Holds w d
      → (write disk w bytes d).0 ≡ ok tt
      → Holds (write disk w bytes d).1 (write disk w bytes d).2
        × ((write disk w bytes d).1.absorbed ≡ w.absorbed ++ bytes)
        × ((write disk w bytes d).1.final_path ≡ w.final_path)
        × ((write disk w bytes d).1.part_path ≡ w.part_path)
  unfolding write after_write at_path
  write-Holds w bytes d law h done = elim (Result-cases (disk.write_all w.part_path bytes d).0) [
    | inl (_, good) ↦ rw good (
      record {
        stored = law.appends w.part_path bytes w.absorbed d h.stored good;
        counted = omega (arith, h.counted, length-append w.absorbed bytes);
        apart = h.apart;
      },
      refl,
      refl,
      refl,
    )
    | inr (e, bad) ↦ cc (rw bad at done)
  ]

  -- What `commit` leaves: on success the verified bytes under the final name, and nothing else
  -- changed; on failure nothing changed but the part file.
  abbrev Outcome : FileWriter → Hash32 → ℕ → D → Result Error Text × D → Type 0
  Outcome w expected size d r =
      (((r.0 ≡ ok w.final_path)
          × (contents w.final_path r.1 ≡ contents w.part_path d)
          × (disk.blake3 w.absorbed ≡ expected)
          × (w.written ≡ size))
        ⊎ ((e : Error) × (r.0 ≡ err e)
            × ((other : Text) → other ≢ w.part_path → contents other r.1 ≡ contents other d)))
      × ((other : Text)
          → other ≢ w.part_path
          → other ≢ w.final_path
          → contents other r.1 ≡ contents other d)

  Outcome-if :
      (w : FileWriter) (expected : Hash32) (size : ℕ) (d : D) (test : Bool)
      (r q : Result Error Text × D)
      → Outcome w expected size d r
      → (test ≡ false → Outcome w expected size d q)
      → Outcome w expected size d (if test then r else q)
  Outcome-if w expected size d true r q hr hq = hr
  Outcome-if w expected size d false r q hr hq = hq refl

  Outcome-unchanged :
      (w : FileWriter) (expected : Hash32) (size : ℕ) (d : D) (e : Error)
      → Outcome w expected size d (err e, d)
  Outcome-unchanged w expected size d e = (inr (e, refl, λ other ne. refl), λ other ne ne'. refl)

  moved-Outcome :
      (w : FileWriter) (expected : Hash32) (size : ℕ) (d : D)
      → IsDisk disk contents
      → w.written ≡ size
      → disk.blake3 w.absorbed ≡ expected
      → Outcome w expected size d (
          (do
            at_path "finish writing" w.part_path (disk.flush_and_sync w.part_path)
            at_path "move into place" w.final_path (disk.rename w.part_path w.final_path)
            pure w.final_path)
            d)
  unfolding at_path
  moved-Outcome w expected size d law counted hashed =
      let d1 = (disk.flush_and_sync w.part_path d).1 in
      let kept = λ (other : Text). law.keeps w.part_path other d in
      elim (Result-cases (disk.flush_and_sync w.part_path d).0) [
        | inr (e, bad) ↦ rw bad (inr (_, refl, λ other ne. kept other), λ other ne ne'. kept other)
        | inl (_, good) ↦ elim (Result-cases (disk.rename w.part_path w.final_path d1).0) [
          | inl (_, moved) ↦
              rw (good, moved)
                (
                  inl (
                    refl,
                    law.moves w.part_path w.final_path d1 moved ∙ kept w.part_path,
                    hashed,
                    counted,
                  ),
                  λ other ne ne'.
                      law.move_elsewhere w.part_path w.final_path other d1 ne ne' ∙ kept other,
                )
          | inr (e, stuck) ↦
              rw (good, stuck)
                (
                  inr (
                    _,
                    refl,
                    λ other ne.
                        law.failed_move w.part_path w.final_path other e d1 stuck ∙ kept other,
                  ),
                  λ other ne ne'.
                      law.failed_move w.part_path w.final_path other e d1 stuck ∙ kept other,
                )
        ]
      ]

  commit_body-Outcome :
      (w : FileWriter) (expected : Hash32) (size : ℕ) (d : D)
      → IsDisk disk contents
      → Outcome w expected size d (commit_body disk w expected size d)
  unfolding commit_body hash
  commit_body-Outcome w expected size d law = elim (Bool-cases (w.written == size)) [
    | inr differ ↦ rw differ (Outcome-unchanged w expected size d _)
    | inl same ↦ elim (Bool-cases (text_eq (disk.blake3 w.absorbed) expected)) [
      | inr differ ↦ rw (same, differ) (Outcome-unchanged w expected size d _)
      | inl hashed ↦
          rw (same, hashed)
            (moved-Outcome w expected size d law (((==_iff w.written size).0) same)
              (text_eq→eq (disk.blake3 w.absorbed) expected hashed))
    ]
  ]

  -- Every way through `commit`.
  pub commit-Outcome :
      (w : FileWriter) (expected : Hash32) (size : ℕ) (d : D)
      → IsDisk disk contents
      → Holds w d
      → let (done, d') = commit disk w expected size d in
        (((done ≡ ok w.final_path)
            × (contents w.final_path d' ≡ some w.absorbed)
            × (disk.blake3 w.absorbed ≡ expected)
            × (w.written ≡ size))
          ⊎ ((e : Error) × (done ≡ err e)
              × ((other : Text) → other ≢ w.part_path → contents other d' ≡ contents other d)))
        × ((other : Text)
            → other ≢ w.part_path
            → other ≢ w.final_path
            → contents other d' ≡ contents other d)
  unfolding commit dropping discard
  commit-Outcome w expected size d law h =
      let (cases, frame) = commit_body-Outcome w expected size d law in
      let d1 = (commit_body disk w expected size d).1 in
      let dropped =
        λ (other : Text) (ne : other ≢ w.part_path). law.removes w.part_path other d1 ne in
      (
        elim cases [
          | inl (done, there, hashed, counted) ↦
              inl (done, dropped w.final_path h.apart ∙ there ∙ h.stored, hashed, counted)
          | inr (e, bad, same) ↦ inr (e, bad, λ other ne. dropped other ne ∙ same other ne)
        ],
        λ other ne ne'. dropped other ne ∙ frame other ne ne',
      )

  -- Every way through `commit`, for any path but the part file's. Either it reports the final path,
  -- and there stand just the bytes that were written, whose digest and number are the expected ones;
  -- or it reports an error, and that path holds what it held before, so that nothing unverified or
  -- half-written appears under any name.
  pub commit_lem :
      (w : FileWriter) (expected : Hash32) (size : ℕ) (d : D) (other : Text)
      → IsDisk disk contents
      → Holds w d
      → other ≢ w.part_path
      → (((commit disk w expected size d).0 ≡ ok w.final_path)
          × (contents w.final_path (commit disk w expected size d).1 ≡ some w.absorbed)
          × (disk.blake3 w.absorbed ≡ expected)
          × (w.written ≡ size))
        ⊎ ((e : Error) × ((commit disk w expected size d).0 ≡ err e)
            × (contents other (commit disk w expected size d).1 ≡ contents other d))
  commit_lem w expected size d other law h ne = elim (commit-Outcome w expected size d law h).0 [
    | inl good ↦ inl good
    | inr (e, failed, same) ↦ inr (e, failed, same other ne)
  ]

  -- A path that is neither the part file's nor the final one is as it was, whatever `commit` reports.
  pub commit_elsewhere :
      (w : FileWriter) (expected : Hash32) (size : ℕ) (d : D) (other : Text)
      → IsDisk disk contents
      → Holds w d
      → other ≢ w.part_path
      → other ≢ w.final_path
      → contents other (commit disk w expected size d).1 ≡ contents other d
  commit_elsewhere w expected size d other law h ne ne' =
      (commit-Outcome w expected size d law h).1 other ne ne'
