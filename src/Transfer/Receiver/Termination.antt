-- ===== src/Transfer/Receiver/Termination.antt =====
-- transfer/receiver.rs: when the loop of `run` ends.
use rusp.Prelude.{
  ℕ, zero, suc, ◌<◌, ◌≡◌, refl, Bool, Option, none, some, length, Result, ok, err, Result-cases,
  inl, inr, arith,
}
use rusp.Error.{Error}
use rusp.Protocol.Externals.{Externals}
use rusp.Protocol.Channel.{Channel, recv_required}
use rusp.Protocol.Channel.Progress.{recv_required_shorter}
use rusp.Files.Disk.{Disk}
use rusp.Transfer.Sender.{cancel_check}
use rusp.Transfer.Receiver.{ReceiveReport}
use rusp.Transfer.Receiver.Run.{Receiving, Flow, goes_on, done}
use rusp.Transfer.Receiver.Session.{PendingOffer}
use rusp.Transfer.Receiver.Loop.{
  Side, receive_loop, after_check, after_recv, after_handle, run, run_loop, completed, prepare,
  initial, reported, accept_offer,
}

module _ (env : Externals) {D : Type 0} (disk : Disk D) (pending : PendingOffer) where
  abbrev Ends {ℓ} : {A : Type ℓ} → Option A → Type ℓ
  Ends {A} o = (a : A) × (o ≡ some a)

  after_handle-Ends :
      (next : Side D → Option (Result Error (Unit {0}) × Side D)) (c : Channel)
      (r : Result Error Flow × Receiving D)
      → ((s : Side D) → s.channel ≡ c → Ends (next s))
      → Ends (after_handle env disk pending next c r)
  unfolding after_handle
  after_handle-Ends next c (ok goes_on, st) h = h (record { channel = c; state = st }) refl
  after_handle-Ends next c (ok done, st) h = (_, refl)
  after_handle-Ends next c (err e, st) h = (_, refl)

  after_check-Ends :
      (next : Side D → Option (Result Error (Unit {0}) × Side D)) (s : Side D)
      (check : Result Error (Unit {0}))
      → ((s' : Side D)
          → length s'.channel.reader.inner.incoming < length s.channel.reader.inner.incoming
          → Ends (next s'))
      → Ends (after_check env disk pending next s check)
  unfolding after_check after_recv
  after_check-Ends next s (err e) h = (_, refl)
  after_check-Ends next s (ok _) h = elim (Result-cases (recv_required env s.channel).0) [
    | inr (e, failed) ↦ rw failed (_, refl)
    | inl (m, got) ↦
        let shorter = recv_required_shorter env s.channel m got in
        rw got (
          after_handle-Ends next (recv_required env s.channel).1 _
            (λ s' same. h s' (rw same shorter)))
  ]

  -- With more fuel than there are bytes to come, the loop ends.
  drained-Ends :
      (cancelled : ℕ → Bool) (fuel n : ℕ) (s : Side D)
      → length s.channel.reader.inner.incoming < fuel
      → Ends (receive_loop env disk pending cancelled fuel n s)
  unfolding receive_loop
  drained-Ends cancelled zero n s h = absurd (omega arith)
  drained-Ends cancelled (suc fuel) n s h =
      after_check-Ends _ s (cancel_check (cancelled n))
        (λ s' less. drained-Ends cancelled fuel (suc n) s' (omega arith))

  completed-Ends :
      (o : Option (Result Error (Unit {0}) × Side D)) → Ends o → Ends (completed env disk pending o)
  unfolding completed
  completed-Ends none h = cc (h.1)
  completed-Ends (some (ok _, s)) h = (_, refl)
  completed-Ends (some (err e, s)) h = (_, refl)

  run_loop-Ends :
      (cancelled : ℕ → Bool) (r : Result Error (Unit {0}) × Side D)
      → Ends (run_loop env disk pending cancelled r)
  unfolding run_loop
  run_loop-Ends cancelled (err e, s) = (_, refl)
  run_loop-Ends cancelled (ok _, s) =
      completed-Ends _
        (drained-Ends cancelled (suc (length s.channel.reader.inner.incoming)) 0 s (omega arith))

  reported-Ends :
      (o : Option (Result Error ReceiveReport × Side D))
      → Ends o
      → Ends (reported env disk pending o)
  unfolding reported
  reported-Ends none h = cc (h.1)
  reported-Ends (some (ok r, s)) h = (_, refl)
  reported-Ends (some (err e, s)) h = (_, refl)

  -- On a connection that ends, `accept` returns a report or an error, whatever has come before.
  accept_offer_ends :
      (cancelled : ℕ → Bool) (c : Channel) (d : D)
      → (r : Result Error ReceiveReport × Side D) × (accept_offer env disk pending cancelled c d
          ≡ some r)
  unfolding accept_offer run
  accept_offer_ends cancelled c d =
      reported-Ends _
        (run_loop-Ends cancelled (prepare env disk pending (initial env disk pending c d)))
