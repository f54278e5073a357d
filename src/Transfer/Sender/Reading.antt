-- ===== src/Transfer/Sender/Reading.antt =====
-- transfer/sender.rs: a chunk is filled from the file, by as many reads as it takes.
use rusp.Prelude.{
  ℕ, zero, suc, ◌+◌, ◌-◌, ◌≤◌, ◌<◌, ◌≡◌, ◌⊎◌, refl, sym, ap, ◌∙◌, Bool, if◌then◌else◌, Bool-cases,
  inl, inr, List, [], ◌∷◌, ◌++◌, append_assoc, length, length-append, ltb, Result, ok, err, arith,
}
use rusp.Error.{Error, Text, IoError}
use rusp.Transfer.Sender.Send.{Reader, after_read, fill_chunk}

-- What is relied on of the file: a read gives the bytes that come next, so many at most, and none
-- only at the end. `rest` is what the file has still to give.
pub record IsReader {F : Type 0} (reader : Reader F) (rest : F → List ℕ) : Type 0 where
  pub gives :
      (n : ℕ) (f f' : F) (bytes : List ℕ)
      → reader.read n f ≡ (ok bytes, f')
      → (rest f ≡ bytes ++ rest f') × (length bytes ≤ n)
  pub ends : (n : ℕ) (f f' : F) → reader.read n f ≡ (ok [], f') → 0 < n → rest f' ≡ []

module _ {F : Type 0} (reader : Reader F) (rest : F → List ℕ) (path : Text) where
  -- A filled chunk: what the file gave, full or up to its end.
  abbrev pub Filled : ℕ → List ℕ → F → List ℕ → F → Type 0
  Filled want got f bytes f' =
      (got ++ rest f ≡ bytes ++ rest f')
      × (length bytes ≤ want)
      × ((length bytes ≡ want) ⊎ (rest f' ≡ []))

  after_read-eq-ok :
      (next : List ℕ → F → Result Error (List ℕ) × F) (got : List ℕ)
      (r : Result IoError (List ℕ) × F) (bytes : List ℕ) (f' : F)
      → after_read reader path next got r ≡ (ok bytes, f')
      → ((r ≡ (ok [], r.1)) × (got ≡ bytes) × (r.1 ≡ f'))
        ⊎ ((b : ℕ) × (bs : List ℕ) × (r ≡ (ok (b ∷ bs), r.1))
            × (next (got ++ (b ∷ bs)) r.1 ≡ (ok bytes, f')))
  unfolding after_read
  after_read-eq-ok next got (err e, f) bytes f' h = cc
  after_read-eq-ok next got (ok [], f) bytes f' h = inl (refl, cc, ap (λ q. q.1) h)
  after_read-eq-ok next got (ok (b ∷ bs), f) bytes f' h = inr (b, bs, refl, h)

  ok_pair :
      (got bytes : List ℕ) (f f' : F)
      → ◌≡◌ {A = Result Error (List ℕ) × F} (ok got, f) (ok bytes, f')
      → (got ≡ bytes) × (f ≡ f')
  ok_pair got bytes f f' h = (value (ap (λ q. q.0) h), ap (λ q. q.1) h)
    where
      value : ◌≡◌ {A = Result Error (List ℕ)} (ok got) (ok bytes) → got ≡ bytes
      value e = cc

  full-Filled :
      (want : ℕ) (got : List ℕ) (f : F) (bytes : List ℕ) (f' : F)
      → length got ≡ want
      → ◌≡◌ {A = Result Error (List ℕ) × F} (ok got, f) (ok bytes, f')
      → Filled want got f bytes f'
  full-Filled want got f bytes f' full h =
      let (same, file) = ok_pair got bytes f f' h in
      let size = sym (ap length same) ∙ full in
      (ap (λ b. b ++ rest f) same ∙ ap (λ k. bytes ++ rest k) file, omega (arith, size), inl size)

  -- One read more.
  more-Filled :
      (want : ℕ) (got more : List ℕ) (f f1 : F) (bytes : List ℕ) (f' : F)
      → rest f ≡ more ++ rest f1
      → Filled want (got ++ more) f1 bytes f'
      → Filled want got f bytes f'
  more-Filled want got more f f1 bytes f' gave (same, size, end) =
      (ap (λ r. got ++ r) gave ∙ sym (append_assoc got more (rest f1)) ∙ same, size, end)

  pub fill_chunk-Filled :
      (turns want : ℕ) (got : List ℕ) (f : F) (bytes : List ℕ) (f' : F)
      → IsReader reader rest
      → length got ≤ want
      → want ≤ length got + turns
      → fill_chunk reader path turns want got f ≡ (ok bytes, f')
      → Filled want got f bytes f'
  unfolding fill_chunk
  fill_chunk-Filled zero want got f bytes f' law fits enough h =
      full-Filled want got f bytes f' (omega arith) h
  fill_chunk-Filled (suc turns) want got f bytes f' law fits enough h =
      elim (Bool-cases (ltb (length got) want)) [
        | inr full ↦ full-Filled want got f bytes f' (ground arith) (sym (ap test full) ∙ h)
        | inl short ↦
            elim (after_read-eq-ok (fill_chunk reader path turns want) got r bytes f'
              (sym (ap test short) ∙ h)) [
                | inl (none, same, file) ↦
                    let last = law.ends (want - length got) f r.1 none (ground arith) in
                    let (gave, _) = law.gives (want - length got) f r.1 [] none in
                    (
                      ap (λ b. b ++ rest f) same ∙ ap (λ k. bytes ++ k) (gave ∙ ap rest file),
                      omega (arith, fits, ap length same),
                      inr (ap rest (sym file) ∙ last),
                    )
                | inr (b, bs, found, on) ↦
                    let (gave, size) = law.gives (want - length got) f r.1 (b ∷ bs) found in
                    more-Filled want got (b ∷ bs) f r.1 bytes f' gave (
                      fill_chunk-Filled turns want (got ++ (b ∷ bs)) r.1 bytes f' law
                        (ground (arith, size, length-append got (b ∷ bs)))
                        (omega (arith, enough, length-append got (b ∷ bs))) on)
              ]
      ]
    where
      r : Result IoError (List ℕ) × F
      r = reader.read (want - length got) f

      test : Bool → Result Error (List ℕ) × F
      test b =
          if b
          then after_read reader path (fill_chunk reader path turns want) got r
          else (ok got, f)
