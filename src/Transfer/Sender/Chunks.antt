-- ===== src/Transfer/Sender/Chunks.antt =====
-- transfer/sender.rs: the loop of `send_file`, as the chunks that it sends.
use rusp.Prelude.{
  ℕ, zero, suc, ◌+◌, ◌-◌, ◌^◌, min, ◌≤◌, ◌<◌, ◌≡◌, ◌⊎◌, refl, sym, ap, ◌∙◌, subst, Bool, Bool-cases,
  inl, inr, List, [], ◌∷◌, ◌++◌, append_assoc, append-nil, length, length-append, ltb, Result, ok,
  err, Act, arith,
}
use rusp.Prelude.Steps.{continue-eq-ok}
use rusp.Error.{Error, Text, CryptoError}
use rusp.Protocol.Frame.{FrameBuf}
use rusp.Protocol.Frame.Buffer.{IsFrame}
use rusp.Protocol.Message.{Hash32, data_chunk}
use rusp.Protocol.Message.RoundTrip.{decode_incoming-start_data}
use rusp.Protocol.Externals.{Externals}
use rusp.Protocol.Channel.{Channel, send_frame, after_seal, stage_data, finish_data}
use rusp.Crypto.Cipher.{SealingKey, seal}
use rusp.Crypto.Cipher.Assumptions.{IsAead}
use rusp.Transfer.Progress.{advanced}
use rusp.Transfer.Sender.{cancel_check}
use rusp.Transfer.Sender.Send.{
  Reader, Sending, Halt, halt, fill_chunk, checked, check_cancelled, emit, on_files, after_finish,
  send_chunk,
}
use rusp.Transfer.Sender.Run.{after_chunk, send_chunks}
use rusp.Transfer.Sender.Stream.{Step, Sends, send_frame-IsFrame}
use rusp.Transfer.Sender.Reading.{IsReader, Filled, fill_chunk-Filled}
use rusp.Transfer.Receiver.Reception.{data_messages, joined}

-- Chunks that follow each other from an offset on, none longer than the limit.
abbrev pub Contiguous : ℕ → ℕ → List (ℕ × List ℕ) → Type 0
Contiguous limit offset [] = Unit
Contiguous limit offset ((o, bytes) ∷ rest) =
    (o ≡ offset) × (length bytes ≤ limit) × Contiguous limit (offset + length bytes) rest

pub halt-eq-ok : {A : Type 0} (r : Result Error A) {a : A} → halt r ≡ ok a → r ≡ ok a
halt-eq-ok (ok x) e = cc
halt-eq-ok (err x) e = cc

module _ {F : Type 0} where
  -- Both buffers are in order.
  abbrev pub Ready : Sending F → Type 0
  Ready st = IsFrame st.channel.out_buf × IsFrame st.buf

  -- A step that leaves channel, buffer and files alone.
  abbrev Same : Sending F → Sending F → Type 0
  Same st st' = (st'.channel ≡ st.channel) × (st'.buf ≡ st.buf) × (st'.files ≡ st.files)

  pub checked-Same :
      (st st' : Sending F) (cs : List Bool) → checked st cs ≡ (ok tt, st') → Same st st'
  unfolding checked cancel_check
  checked-Same st st' [] h =
      (ap (λ q. q.1.channel) (sym h), ap (λ q. q.1.buf) (sym h), ap (λ q. q.1.files) (sym h))
  checked-Same st st' (c ∷ cs) h =
      (ap (λ q. q.1.channel) (sym h), ap (λ q. q.1.buf) (sym h), ap (λ q. q.1.files) (sym h))

  pub on_files-eq-ok :
      {A : Type 0} (call : F → Result Error A × F) (st st' : Sending F) (a : A)
      → on_files call st ≡ (ok a, st')
      → (call st.files ≡ (ok a, st'.files)) × (st'.channel ≡ st.channel) × (st'.buf ≡ st.buf)
  unfolding on_files
  on_files-eq-ok {A} call st st' a h = (
    ap (λ x. (x, (call st.files).1)) (halt-eq-ok (call st.files).0 (ap (λ q. q.0) h))
        ∙ ap (λ q. (ok a, q.1.files)) h,
    ap (λ q. q.1.channel) (sym h),
    ap (λ q. q.1.buf) (sym h),
  )

module _ (env : Externals) where
  send_frame-out_buf : (c : Channel) (b : FrameBuf) → (send_frame env c b).1.out_buf ≡ c.out_buf
  unfolding send_frame after_seal
  send_frame-out_buf c b = kept (seal env.aead c.seal_key b)
    where
      kept :
          (r : Result CryptoError (Unit {0}) × SealingKey × FrameBuf)
          → (after_seal c r).1.out_buf ≡ c.out_buf
      kept (ok x, k, d) = refl
      kept (err x, k, d) = refl

  module _ {F : Type 0} where
    send_chunk-Step :
        (offset want : ℕ) (bytes : List ℕ) (st st' : Sending F)
        → IsAead env.aead
        → Ready st
        → offset < 2 ^ 64
        → length bytes ≤ want
        → send_chunk env offset want bytes st ≡ (ok tt, st')
        → Step env st.channel (data_chunk offset bytes) st'.channel
          × Ready st'
          × (st'.files ≡ st.files)
    unfolding send_chunk stage_data finish_data after_finish
    send_chunk-Step offset want bytes st st' law (out, v) small fits h =
        let (b, made, v', reads) =
          decode_incoming-start_data env.control_serde st.buf offset want bytes v small fits in
        let went = sym (ap (after_finish env st) made) ∙ h in
        let sent = halt-eq-ok (send_frame env st.channel b).0 (ap (λ q. q.0) went) in
        let channel = ap (λ q. q.1.channel) (sym went) in
        (
          (b, v', reads, sent, ap (λ k. k.writer) channel, ap (λ k. k.seal_key) channel),
          (
            subst IsFrame (sym (ap (λ k. k.out_buf) channel ∙ send_frame-out_buf st.channel b)) out,
            subst IsFrame (ap (λ q. q.1.buf) went)
                (send_frame-IsFrame env st.channel b law v' sent),
          ),
          ap (λ q. q.1.files) (sym went),
        )

module _ (env : Externals) (blake3 : List ℕ → Hash32) {F : Type 0} (reader : Reader F)
    (rest : F → List ℕ) where
  -- What the loop has done between two states: the chunks that it sent, what it hashed, and that it
  -- stopped at the size of the entry or at the end of the file.
  pub record Streamed (chunk size offset : ℕ) (hashed : List ℕ) (st : Sending F) (sent : ℕ × List ℕ)
      (st' : Sending F) : Type 0 where
    pub chunks : List (ℕ × List ℕ)
    pub sends : Sends env (data_messages chunks) st.channel st'.channel
    pub ready : Ready st'
    pub contiguous : Contiguous chunk offset chunks
    pub hashes : sent.1 ≡ hashed ++ joined chunks
    pub counts : sent.0 ≡ offset + length (joined chunks)
    pub within : sent.0 ≤ size
    pub reads : rest st.files ≡ joined chunks ++ rest st'.files
    pub ends : (sent.0 ≡ size) ⊎ (rest st'.files ≡ [])

  pair :
      (a b : ℕ × List ℕ) (st st' : Sending F)
      → ◌≡◌ {A = Result Halt (ℕ × List ℕ) × Sending F} (ok a, st) (ok b, st')
      → (a ≡ b) × (st ≡ st')
  pair a b st st' h = (value (ap (λ q. q.0) h), ap (λ q. q.1) h)
    where
      value : ◌≡◌ {A = Result Halt (ℕ × List ℕ)} (ok a) (ok b) → a ≡ b
      value e = cc

  -- The loop stops.
  stop-Streamed :
      (chunk size offset : ℕ) (hashed : List ℕ) (st : Sending F) (sent : ℕ × List ℕ)
      (st' : Sending F)
      → Ready st
      → offset ≤ size
      → (offset ≡ size) ⊎ (rest st.files ≡ [])
      → ◌≡◌ {A = Result Halt (ℕ × List ℕ) × Sending F} (ok (offset, hashed), st) (ok sent, st')
      → Streamed chunk size offset hashed st sent st'
  unfolding data_messages joined
  stop-Streamed chunk size offset hashed st sent st' ready within end h =
      let (same, state) = pair (offset, hashed) sent st st' h in
      record {
        chunks = [];
        sends = ap (λ s. s.channel) state;
        ready = subst Ready state ready;
        contiguous = tt;
        hashes = ap (λ s. s.1) (sym same) ∙ sym (append-nil hashed);
        counts = omega (arith, ap (λ s. s.0) same);
        within = omega (arith, ap (λ s. s.0) same);
        reads = ap (λ s. rest s.files) state;
        ends = elim end [
          | inl full ↦ inl (ap (λ s. s.0) (sym same) ∙ full)
          | inr gone ↦ inr (ap (λ s. rest s.files) (sym state) ∙ gone)
        ];
      }

  -- A chunk that was read and sent, and what the loop does behind it.
  more-Streamed :
      (chunk size offset : ℕ) (hashed bytes : List ℕ) (st s1 : Sending F) (sent : ℕ × List ℕ)
      (st' : Sending F)
      → length bytes ≤ chunk
      → rest st.files ≡ bytes ++ rest s1.files
      → Step env st.channel (data_chunk offset bytes) s1.channel
      → Streamed chunk size (offset + length bytes) (hashed ++ bytes) s1 sent st'
      → Streamed chunk size offset hashed st sent st'
  unfolding data_messages joined
  more-Streamed chunk size offset hashed bytes st s1 sent st' fits read step h = record {
    chunks = (offset, bytes) ∷ h.chunks;
    sends = (s1.channel, step, h.sends);
    ready = h.ready;
    contiguous = (refl, fits, h.contiguous);
    hashes = h.hashes ∙ append_assoc hashed bytes (joined h.chunks);
    counts = omega (arith, h.counts, length-append bytes (joined h.chunks));
    within = h.within;
    reads =
        read
        ∙ ap (λ r. bytes ++ r) h.reads
        ∙ sym (append_assoc bytes (joined h.chunks) (rest st'.files));
    ends = h.ends;
  }

  -- The same from a state before, on the same channel.
  at-Streamed :
      (chunk size offset : ℕ) (hashed : List ℕ) (s2 : Sending F) (sent : ℕ × List ℕ)
      (st' st : Sending F)
      → s2.channel ≡ st.channel
      → rest st.files ≡ rest s2.files
      → Streamed chunk size offset hashed s2 sent st'
      → Streamed chunk size offset hashed st sent st'
  at-Streamed chunk size offset hashed s2 sent st' st same read h = record {
    chunks = h.chunks;
    sends = subst (λ k. Sends env (data_messages h.chunks) k st'.channel) same h.sends;
    ready = h.ready;
    contiguous = h.contiguous;
    hashes = h.hashes;
    counts = h.counts;
    within = h.within;
    reads = read ∙ h.reads;
    ends = h.ends;
  }

  after_chunk-Streamed :
      (next : ℕ × List ℕ → Act Halt (Sending F) (ℕ × List ℕ)) (chunk size want offset : ℕ)
      (hashed bytes : List ℕ) (s2 : Sending F) (sent : ℕ × List ℕ) (st' st : Sending F)
      → IsAead env.aead
      → Ready s2
      → s2.channel ≡ st.channel
      → offset < size
      → size < 2 ^ 64
      → 1 ≤ want
      → want ≤ chunk
      → offset + want ≤ size
      → Filled reader rest [] want [] st.files bytes s2.files
      → ((s3 : Sending F)
          → Ready s3
          → offset + length bytes ≤ size
          → 1 ≤ length bytes
          → next (offset + length bytes, hashed ++ bytes) s3 ≡ (ok sent, st')
          → Streamed chunk size (offset + length bytes) (hashed ++ bytes) s3 sent st')
      → after_chunk env blake3 reader next want (offset, hashed) bytes s2 ≡ (ok sent, st')
      → Streamed chunk size offset hashed st sent st'
  unfolding after_chunk emit
  after_chunk-Streamed next chunk size want offset hashed [] s2 sent st' st law ready same less
        bound pos limit room (read, fits, end) ih h =
      at-Streamed chunk size offset hashed s2 sent st' st same read (
        stop-Streamed chunk size offset hashed s2 sent st' ready (omega arith)
          (elim end [ inl full ↦ absurd (omega (arith, full, pos)) | inr gone ↦ inr gone ]) h)
  after_chunk-Streamed next chunk size want offset hashed (b ∷ bs) s2 sent st' st law ready same
        less bound pos limit room (read, fits, end) ih h =
      let (_, s3, sent_chunk, h1) = continue-eq-ok (send_chunk env offset want (b ∷ bs) s2) _ h in
      let (step, ready', files) =
        send_chunk-Step env offset want (b ∷ bs) s2 s3 law ready (omega arith) fits sent_chunk in
      more-Streamed chunk size offset hashed (b ∷ bs) st
        (record s3 { events = s3.events ++ (advanced (length (b ∷ bs)) ∷ []) }) sent st'
        (omega (arith, fits, limit)) (read ∙ ap (λ f. (b ∷ bs) ++ rest f) (sym files))
        (subst (λ k. Step env k (data_chunk offset (b ∷ bs)) s3.channel) same step)
        (ih (record s3 { events = s3.events ++ (advanced (length (b ∷ bs)) ∷ []) }) ready'
          (omega (arith, fits, room)) (omega arith) h1)

  pub send_chunks-Streamed :
      (turns : ℕ) (path : Text) (chunk size offset : ℕ) (hashed : List ℕ) (st : Sending F)
      (sent : ℕ × List ℕ) (st' : Sending F)
      → IsAead env.aead
      → IsReader reader rest
      → Ready st
      → offset ≤ size
      → size ≤ offset + turns
      → size < 2 ^ 64
      → 1 ≤ chunk
      → send_chunks env blake3 reader turns path chunk size (offset, hashed) st ≡ (ok sent, st')
      → Streamed chunk size offset hashed st sent st'
  unfolding send_chunks check_cancelled
  send_chunks-Streamed zero path chunk size offset hashed st sent st' law file ready within enough
        bound pos h =
      stop-Streamed chunk size offset hashed st sent st' ready within (inl (omega arith)) h
  send_chunks-Streamed (suc turns) path chunk size offset hashed st sent st' law file ready within
        enough bound pos h =
      elim (Bool-cases (ltb offset size)) [
        | inr full ↦
            stop-Streamed chunk size offset hashed st sent st' ready within (inl (ground arith))
              (rw full at h)
        | inl more ↦
            let want = min chunk (size - offset) in
            let (_, s1, checked_first, h1) = continue-eq-ok (check_cancelled st) _ (rw more at h) in
            let (channel, buf, files) = checked-Same st s1 st.cancels checked_first in
            let (bytes, s2, read, h2) =
              continue-eq-ok (on_files (fill_chunk reader path want want []) s1) _ h1 in
            let (got, channel2, buf2) =
              on_files-eq-ok (fill_chunk reader path want want []) s1 s2 bytes read in
            let filled =
              fill_chunk-Filled reader rest path want want [] s1.files bytes s2.files file
                (omega arith) (omega arith) got in
            after_chunk-Streamed (send_chunks env blake3 reader turns path chunk size) chunk size
              want offset hashed bytes s2 sent st' st law
              (
                subst IsFrame (sym (ap (λ c. c.out_buf) (channel2 ∙ channel))) ready.0,
                subst IsFrame (sym (buf2 ∙ buf)) ready.1,
              )
              (channel2 ∙ channel) (ground arith) bound (ground arith) (omega arith) (ground arith)
              (ap rest (sym files) ∙ filled.0, filled.1, filled.2)
              (λ s3 ready3 fits one next.
                send_chunks-Streamed turns path chunk size (offset + length bytes) (hashed ++ bytes)
                  s3 sent st' law file ready3 fits (omega (arith, enough, one)) bound pos next)
              h2
      ]
