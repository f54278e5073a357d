-- ===== src/Transfer/Sender/Send.antt =====
-- transfer/sender.rs: `send` and `send_file`. Opening and reading a file is a parameter, as is BLAKE3.
use rusp.Prelude.{
  ℕ, zero, suc, ◌-◌, Bool, Option, none, some, List, [], ◌∷◌, ◌++◌, length, ltb, if◌then◌else◌,
  Result, ok, err, map_err, Act,
}
use rusp.Error.{Error, Text, IoError, io, lit, shown}
use rusp.Protocol.Frame.{FrameBuf, fill}
use rusp.Protocol.Externals.{Externals}
use rusp.Protocol.Channel.{Channel, stage_data, finish_data, send_frame}
use rusp.Transfer.Progress.{Event}
use rusp.Transfer.Sender.{cancel_check}

-- tokio's `File::open`, and `read` at the place that the file is at: so many bytes at most.
pub record Reader (F : Type 0) : Type 0 where
  pub open_file : Text → Act IoError F (Unit {0})
  pub read : ℕ → Act IoError F (List ℕ)

pub record SendReport : Type 0 where
  pub files : ℕ
  pub bytes : ℕ
  pub skipped : ℕ

-- What `send` works on; `cancels` says of each check that is to come whether it finds a
-- cancellation.
pub record Sending (F : Type 0) : Type 0 where
  pub channel : Channel
  pub buf : FrameBuf
  pub files : F
  pub cancels : List Bool
  pub events : List Event

-- An error, or a panic (`none`).
abbrev pub Halt : Type 0
Halt = Option Error

abbrev pub halt {ℓ} : {A : Type ℓ} → Result Error A → Result Halt A
halt = map_err some

-- Reading: the bytes that a chunk has so far, until it is full or the file ends. Each turn adds a
-- byte, so `want` turns are enough.
module _ {F : Type 0} (reader : Reader F) (path : Text) where
  unfoldable pub after_read :
      (List ℕ → Act Error F (List ℕ))
      → List ℕ
      → Result IoError (List ℕ) × F
      → Result Error (List ℕ) × F
  after_read next got (err e, f) = (err (io (lit "read " ∷ shown path ∷ []) e), f)
  after_read next got (ok [], f) = (ok got, f)
  after_read next got (ok (b ∷ bytes), f) = next (got ++ (b ∷ bytes)) f

  unfoldable pub fill_chunk : ℕ → ℕ → List ℕ → Act Error F (List ℕ)
  fill_chunk zero want got f = (ok got, f)
  fill_chunk (suc turns) want got f =
      if ltb (length got) want
      then after_read (fill_chunk turns want) got (reader.read (want - length got) f)
      else (ok got, f)

  unfoldable pub open_source : Act Error F (Unit {0})
  open_source f =
      let (done, f') = reader.open_file path f in
      (map_err (io (lit "read " ∷ shown path ∷ [])) done, f')

module _ {F : Type 0} where
  unfoldable pub checked : Sending F → List Bool → Result Halt (Unit {0}) × Sending F
  checked st [] = (ok tt, st)
  checked st (c ∷ cs) = (halt (cancel_check c), record st { cancels = cs })

  unfoldable pub check_cancelled : Act Halt (Sending F) (Unit {0})
  check_cancelled st = checked st st.cancels

  unfoldable pub emit : Event → Act Halt (Sending F) (Unit {0})
  emit e st = (ok tt, record st { events = st.events ++ (e ∷ []) })

  -- An operation on the files alone.
  unfoldable pub on_files : {A : Type 0} → Act Error F A → Act Halt (Sending F) A
  on_files call st = let (got, f) = call st.files in (halt got, record st { files = f })

  unfoldable pub on_channel : {A : Type 0} → Act Error Channel A → Act Halt (Sending F) A
  on_channel call st = let (got, c) = call st.channel in (halt got, record st { channel = c })

  unfoldable pub after_finish :
      Externals → Sending F → Option FrameBuf → Result Halt (Unit {0}) × Sending F
  after_finish env st none = (err none, st)
  after_finish env st (some b) =
      let (done, c, b') = send_frame env st.channel b in
      (halt done, record st { channel = c; buf = b' })

  -- A chunk that was read into the region which `stage_data` gave is finished and sent.
  unfoldable pub send_chunk : Externals → ℕ → ℕ → List ℕ → Act Halt (Sending F) (Unit {0})
  send_chunk env offset want bytes st =
      let (staged, start) = stage_data st.buf offset want in
      after_finish env st (finish_data (fill staged start bytes) (length bytes))
