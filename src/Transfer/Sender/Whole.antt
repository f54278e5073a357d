-- ===== src/Transfer/Sender/Whole.antt =====
-- transfer/sender.rs: a whole file, from its start message to its end message.
use rusp.Prelude.{
  ℕ, ◌^◌, ◌≤◌, ◌<◌, ◌≡◌, ◌⊎◌, sym, ap, ◌∙◌, subst, inl, inr, List, [], ◌∷◌, ◌++◌, append-nil,
  length, take, take-append, take_all, Result, ok, err, map_err, arith,
}
use rusp.Prelude.Steps.{continue, continue-eq-ok, ◌>>◌, pure}
use rusp.Error.{Error, Text, IoError, io, lit, shown}
use rusp.Protocol.Frame.Buffer.{IsFrame}
use rusp.Protocol.Message.{Entry, Hash32, ControlMessage, control, file_start, file_end}
use rusp.Protocol.Message.Codec.{RoundTrips}
use rusp.Protocol.Externals.{Externals}
use rusp.Protocol.Channel.{send_control}
use rusp.Crypto.Cipher.Assumptions.{IsAead}
use rusp.Transfer.Sender.Send.{Reader, Sending, Halt, on_channel, on_files, open_source}
use rusp.Transfer.Sender.Run.{send_message, send_chunks, send_file}
use rusp.Transfer.Sender.Stream.{Step, Sends, Sends-append, send_control-Step}
use rusp.Transfer.Sender.Reading.{IsReader}
use rusp.Transfer.Sender.Chunks.{
  Ready, Contiguous, Streamed, send_chunks-Streamed, halt-eq-ok, on_files-eq-ok,
}
use rusp.Transfer.Receiver.Reception.{data_messages, joined}

module _ (env : Externals) (blake3 : List ℕ → Hash32) {F : Type 0} (reader : Reader F)
    (rest : F → List ℕ) where
  send_message-Step :
      (msg : ControlMessage) (st st' : Sending F)
      → IsAead env.aead
      → RoundTrips env.control_serde
      → Ready st
      → send_message env blake3 reader msg st ≡ (ok tt, st')
      → Step env st.channel (control msg) st'.channel × Ready st' × (st'.files ≡ st.files)
  unfolding send_message on_channel
  send_message-Step msg st st' law trips (out, v) h =
      let sent = halt-eq-ok (send_control env st.channel msg).0 (ap (λ q. q.0) h) in
      let (step, out') = send_control-Step env st.channel st'.channel msg law trips out (
        ap (λ x. (x, (send_control env st.channel msg).1)) sent
        ∙ ap (λ q. (ok tt, q.1.channel)) h) in
      (step, (out', subst IsFrame (ap (λ q. q.1.buf) h) v), ap (λ q. q.1.files) (sym h))

  open_source-eq-ok :
      (path : Text) (f f' : F)
      → open_source reader path f ≡ (ok tt, f')
      → reader.open_file path f ≡ (ok tt, f')
  unfolding open_source
  open_source-eq-ok path f f' h = opened (reader.open_file path f) h
    where
      opened :
          (r : Result IoError (Unit {0}) × F)
          → ◌≡◌ {A = Result Error (Unit {0}) × F}
              (map_err (io (lit "read " ∷ shown path ∷ [])) r.0, r.1)
              (ok tt, f')
          → r ≡ (ok tt, f')
      opened (ok x, g) e = ap (λ k. (ok tt, k)) (ap (λ q. q.1) e)
      opened (err x, g) e = cc (ap (λ q. q.0) e)

  -- The chunks are what the file has first, up to the size of the entry.
  joined-take :
      (size : ℕ) (content bytes left : List ℕ)
      → content ≡ bytes ++ left
      → length bytes ≤ size
      → (length bytes ≡ size) ⊎ (left ≡ [])
      → bytes ≡ take size content
  joined-take size content bytes left read within (inl full) =
      sym (ap (take size) read ∙ take-append size bytes left (sym full))
  joined-take size content bytes left read within (inr gone) =
      let whole = read ∙ ap (λ l. bytes ++ l) gone ∙ append-nil bytes in
      sym (ap (take size) whole ∙ take_all size bytes within)

  -- The messages of a file, and what they carry.
  abbrev pub IsSent : ℕ → ℕ → ℕ → ℕ → List ℕ → Sending F → Sending F → Type 0
  IsSent index chunk size n content st st' =
      (chunks : List (ℕ × List ℕ)) × Sends env
        (control (file_start index)
          ∷ (data_messages chunks ++ (control (file_end index (blake3 (joined chunks)) n) ∷ [])))
        st.channel st'.channel
      × Contiguous chunk 0 chunks
      × (joined chunks ≡ take size content)
      × (n ≡ length (joined chunks))

  -- The stages, put together.
  stages-IsSent :
      (index chunk size n : ℕ) (content : List ℕ) (st s1 s2 s3 s4 st' : Sending F)
      (sent : ℕ × List ℕ)
      → Step env st.channel (control (file_start index)) s1.channel
      → s2.channel ≡ s1.channel
      → rest s2.files ≡ content
      → Streamed env blake3 reader rest chunk size 0 [] s2 sent s3
      → Step env s3.channel (control (file_end index (blake3 sent.1) sent.0)) s4.channel
      → ◌≡◌ {A = Result Halt ℕ × Sending F} (ok sent.0, s4) (ok n, st')
      → IsSent index chunk size n content st st'
  stages-IsSent index chunk size n content st s1 s2 s3 s4 st' sent step same content_is s last end =
      let number : sent.0 ≡ n = value sent.0 n (ap (λ q. q.0) end) in
      (
        s.chunks,
        (
          s1.channel,
          step,
          subst
              (λ k.
                Sends env
                  (data_messages s.chunks
                    ++ (control (file_end index (blake3 (joined s.chunks)) n) ∷ []))
                  k st'.channel)
              same
              (Sends-append env (data_messages s.chunks)
                (control (file_end index (blake3 (joined s.chunks)) n) ∷ []) s2.channel s3.channel
                st'.channel s.sends
                (
                  s4.channel,
                  subst (λ m. Step env s3.channel m s4.channel)
                      (ap (λ b. control (file_end index (blake3 b) sent.0)) s.hashes
                        ∙ ap (λ m. control (file_end index (blake3 (joined s.chunks)) m)) number)
                      last,
                  ap (λ q. q.1.channel) end,
                )),
        ),
        s.contiguous,
        joined-take size content (joined s.chunks) (rest s3.files) (sym content_is ∙ s.reads)
            (omega (arith, s.counts, s.within)) (full s.ends),
        omega (arith, number, s.counts),
      )
    where
      value : (a b : ℕ) → ◌≡◌ {A = Result Halt ℕ} (ok a) (ok b) → a ≡ b
      value a b e = cc

      full :
          (sent.0 ≡ size) ⊎ (rest s3.files ≡ [])
          → (length (joined s.chunks) ≡ size) ⊎ (rest s3.files ≡ [])
      full (inl e) = inl (omega (arith, s.counts, e))
      full (inr e) = inr e

  -- Behind the loop: the end message.
  end-IsSent :
      (index chunk size n : ℕ) (content : List ℕ) (st s1 s2 s3 st' : Sending F) (sent : ℕ × List ℕ)
      → IsAead env.aead
      → RoundTrips env.control_serde
      → Step env st.channel (control (file_start index)) s1.channel
      → s2.channel ≡ s1.channel
      → rest s2.files ≡ content
      → Streamed env blake3 reader rest chunk size 0 [] s2 sent s3
      → continue
          (send_message env blake3 reader (file_end index (blake3 sent.1) sent.0) s3)
          (λ _. pure sent.0)
        ≡ (ok n, st')
      → IsSent index chunk size n content st st'
  end-IsSent index chunk size n content st s1 s2 s3 st' sent law trips step same content_is s h =
      let (_, s4, ended, h1) =
        continue-eq-ok (send_message env blake3 reader (file_end index (blake3 sent.1) sent.0) s3)
          (λ _. pure sent.0) h in
      let (last, _, _) =
        send_message-Step (file_end index (blake3 sent.1) sent.0) s3 s4 law trips s.ready ended in
      stages-IsSent index chunk size n content st s1 s2 s3 s4 st' sent step same content_is s last
        h1

  -- Behind the start message: the file is opened, and the loop.
  loop-IsSent :
      (index : ℕ) (path : Text) (chunk size n : ℕ) (content : List ℕ) (st s1 s2 st' : Sending F)
      → IsAead env.aead
      → RoundTrips env.control_serde
      → IsReader reader rest
      → Ready s2
      → size < 2 ^ 64
      → 1 ≤ chunk
      → Step env st.channel (control (file_start index)) s1.channel
      → s2.channel ≡ s1.channel
      → rest s2.files ≡ content
      → continue (send_chunks env blake3 reader size path chunk size (0, []) s2) (λ sent.
        send_message env blake3 reader (file_end index (blake3 sent.1) sent.0) >> pure sent.0)
        ≡ (ok n, st')
      → IsSent index chunk size n content st st'
  loop-IsSent index path chunk size n content st s1 s2 st' law trips file ready bound pos step same
        content_is h =
      let (sent, s3, looped, h1) =
        continue-eq-ok (send_chunks env blake3 reader size path chunk size (0, []) s2)
          (λ sent.
            send_message env blake3 reader (file_end index (blake3 sent.1) sent.0) >> pure sent.0)
          h in
      end-IsSent index chunk size n content st s1 s2 s3 st' sent law trips step same content_is
        (send_chunks-Streamed env blake3 reader rest size path chunk size 0 [] s2 sent s3 law file
          ready (omega arith) (omega arith) bound pos looped)
        h1

  -- A file that was sent went out as its start, chunks and its end: the chunks follow each other from
  -- offset zero, none is longer than the limit, together they are what the file has first, up to the
  -- size of the entry, and the end has their number and their digest.
  pub send_file_lem :
      (index : ℕ) (entry : Entry) (path : Text) (chunk n : ℕ) (content : List ℕ)
      (st st' : Sending F)
      → IsAead env.aead
      → RoundTrips env.control_serde
      → IsReader reader rest
      → ((f : F) → reader.open_file path st.files ≡ (ok tt, f) → rest f ≡ content)
      → Ready st
      → entry.size < 2 ^ 64
      → 1 ≤ chunk
      → send_file env blake3 reader index entry path chunk st ≡ (ok n, st')
      → IsSent index chunk entry.size n content st st'
  unfolding send_file
  send_file_lem index entry path chunk n content st st' law trips file opens ready bound pos h =
      let (_, s1, started, h1) =
        continue-eq-ok (send_message env blake3 reader (file_start index) st) _ h in
      let (step, ready1, files1) =
        send_message-Step (file_start index) st s1 law trips ready started in
      let (_, s2, opened, h2) = continue-eq-ok (on_files (open_source reader path) s1) _ h1 in
      let (got, channel2, buf2) = on_files-eq-ok (open_source reader path) s1 s2 tt opened in
      loop-IsSent index path chunk entry.size n content st s1 s2 st' law trips file
        (
          subst IsFrame (sym (ap (λ c. c.out_buf) channel2)) ready1.0,
          subst IsFrame (sym buf2) ready1.1,
        )
        bound pos step channel2
        (opens s2.files
          (ap (reader.open_file path) (sym files1) ∙ open_source-eq-ok path s1.files s2.files got))
        h2
