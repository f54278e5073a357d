-- ===== src/Transfer/Receiver/Session.antt =====
-- transfer/receiver.rs: negotiation, the offer, the decision and the whole of a transfer.
use rusp.Prelude.{Option, ℕ, ◌^◌, ◌%◌, max, some, length, Result, ok, err, Act}
use rusp.Prelude.Steps.{◌>>=◌, ◌>>◌, pure, lift}
use rusp.Error.{Error, Text}
use rusp.Protocol.Message.{
  Capabilities, intersect, Offer, ControlMessage, capabilities, offer, decline, cancel, failure,
  name,
}
use rusp.Protocol.Version.{local_capabilities}
use rusp.Protocol.Externals.{Externals}
use rusp.Protocol.Channel.{
  Channel, max_data_len, apply_capabilities, send_control, send_failure, recv_control,
}
use rusp.Files.Disk.{Disk}
use rusp.Transfer.Sender.{peer_failure, cancelled_by_peer, unexpected_message}
use rusp.Transfer.Receiver.{ReceiveOptions, ReceiveReport, Plan, inspect}
use rusp.Transfer.Receiver.Files.{plan_for}

pub record PendingOffer : Type 0 where
  pub offer : Offer
  pub plan : Plan
  pub options : ReceiveOptions
  pub chunk_limit : ℕ

-- The value that an operation on the channel leaves, beside the disk.
abbrev pub on_channel : {A : Type 0} {D : Type 0} → Act Error Channel A → Act Error (Channel × D) A
on_channel call (c, d) = let (got, c') = call c in (got, (c', d))

abbrev pub on_disk : {A : Type 0} {D : Type 0} → Act Error D A → Act Error (Channel × D) A
on_disk call (c, d) = let (got, d') = call d in (got, (c, d'))

unfoldable pub expect_capabilities : ControlMessage → Result Error Capabilities
expect_capabilities (capabilities caps) = ok caps
expect_capabilities (failure code message) = err (peer_failure code message)
expect_capabilities other = err (unexpected_message (name other) "capabilities")

unfoldable pub expect_offer : ControlMessage → Result Error Offer
expect_offer (offer o) = ok o
expect_offer (cancel reason) = err (cancelled_by_peer reason)
expect_offer (failure code message) = err (peer_failure code message)
expect_offer other = err (unexpected_message (name other) "an offer")

unfoldable pub new_report : Plan → ReceiveOptions → ReceiveReport
new_report plan options = record {
  files = 0;
  bytes = 0;
  skipped = length plan.skipped % 2 ^ 32;
  directories = 0;
  output_dir = options.output_dir;
}

module _ (env : Externals) {D : Type 0} (disk : Disk D) where
  unfoldable pub negotiate : Act Error Channel Capabilities
  negotiate = do
    got ← recv_control env
    theirs ← lift (expect_capabilities got)
    (λ c. send_control env c (capabilities local_capabilities))
    (λ c. (
      ok (intersect local_capabilities theirs),
      apply_capabilities c (intersect local_capabilities theirs),
    ))

  unfoldable pub inspected : Offer → Result Error (Unit {0}) → Act Error Channel (Unit {0})
  inspected o (ok _) c = (ok tt, c)
  inspected o (err e) c = (err e, send_failure env c (5) e)

  unfoldable pub planned : Result Error Plan → Act Error Channel Plan
  planned (ok plan) c = (ok plan, c)
  planned (err e) c = (err e, (send_control env c (decline (some (env.display e)))).1)

  -- Negotiate, then read the offer without acting on it.
  unfoldable pub begin : ReceiveOptions → Act Error (Channel × D) PendingOffer
  begin options = do
    caps ← on_channel negotiate
    limit ← (λ s. (ok (max (max_data_len s.0) caps.chunk_size), s))
    got ← on_channel (recv_control env)
    o ← lift (expect_offer got)
    on_channel (inspected o (inspect o))
    found ←
        (λ (s : Channel × D). let (got', d') = plan_for disk o options s.1 in (ok got', (s.0, d')))
    plan ← on_channel (planned found)
    pure (record { offer = o; plan = plan; options = options; chunk_limit = limit })

  -- PendingOffer::decline
  unfoldable pub decline_offer : Option Text → Act Error Channel (Unit {0})
  decline_offer reason c = send_control env c (decline reason)
