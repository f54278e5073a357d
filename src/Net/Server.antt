-- ===== src/Net/Server.antt =====
-- net/server.rs: the relay. Each accepted connection is a task; the tasks share the map of rooms.
pub mod Rooms
pub mod Pairing
pub mod Meeting
pub mod Refusals
pub mod Capacity
pub mod Permits
pub mod Limits
use Prim.Native.String.{String}
use rusp.Prelude.{
  ℕ, zero, suc, ◌+◌, ◌^◌, ◌%◌, max, Bool, true, false, ◌||◌, Option, none, some, List, [], ◌∷◌,
  ◌++◌, length, get_elem?, ltb, leb, not, if◌then◌else◌, Result, ok, err, ◌>>=◌, ◌>>◌, as_bytes,
  text_eq,
}
use rusp.Error.{Error, Text, CodeError, network, timeout}
use rusp.Code.{RoomId, room_new}
use rusp.Protocol.Message.Codec.{Serde}
use rusp.Protocol.Stream.{Source, Sink, reader_new, read_frame_required}
use rusp.Net.Relay.{
  Join, RefusalReason, unauthorised, busy, overloaded, bad_room, max_token_len, relay_max_frame,
  decode_read, filled, read_magic,
}
use rusp.Net.Server.Rooms.{get, insert, remove}

abbrev pub handshake_timeout : ℕ
handshake_timeout = 15000

abbrev pub max_pending_handshakes : ℕ
max_pending_handshakes = 256

-- Durations are in milliseconds.
pub record RelaySettings : Type 0 where
  pub token : Option Text
  pub max_rooms : ℕ
  pub room_timeout : ℕ

pub record RelayMetrics : Type 0 where
  pub accepted : ℕ
  pub paired : ℕ
  pub refused : ℕ

unfoldable pub snapshot : RelayMetrics → ℕ × ℕ × ℕ
snapshot m = (m.accepted, m.paired, m.refused)

-- `fetch_add(1)` on a counter of 64 bits.
unfoldable pub fetch_add_one : ℕ → ℕ
fetch_add_one n = (n + 1) % 2 ^ 64

-- The sender half in `Waiting` belongs to the task that waits.
pub data Room : Type 0 where
  waiting : ℕ → Room
  paired : Room

-- What a task of `serve_client` is doing with its room; tasks have numbers, in order of acceptance.
-- `offered` is a waiting task whose channel holds its partner's stream already.
pub data Task : Type 0 where
  greeting : Task
  in_room : Text → Task
  handing : Text → ℕ → Task
  offered : Text → ℕ → Task
  joined : Text → ℕ → Task
  leaving : Text → Task
  cleaning : Text → Task
  given : Text → ℕ → Task
  ended : Task

pub record Shared : Type 0 where
  pub rooms : List (Text × Room)
  pub max_rooms : ℕ
  pub room_timeout : ℕ
  pub token : Option Text
  pub metrics : RelayMetrics
  pub tasks : List Task

-- Relay::bind, once the socket is bound.
unfoldable pub bind : RelaySettings → Shared
bind settings = record {
  rooms = [];
  max_rooms = max settings.max_rooms 1;
  room_timeout = settings.room_timeout;
  token = settings.token;
  metrics = record { accepted = 0; paired = 0; refused = 0 };
  tasks = [];
}

-- What the handshake of a client comes to, when it is not cut off by the clock.
unfoldable pub read_join : Serde Join → Source → Result Error Join
read_join s source =
    let (greeted, rest) = read_magic source in
    let (got, _, buf) = read_frame_required (reader_new rest relay_max_frame) [] in
    greeted >> decode_read s (filled buf got)

unfoldable pub in_time : Bool → Result Error Join → Result Error Join
in_time true got = got
in_time false got = err (network (timeout handshake_timeout))

-- blake3 is a parameter.
unfoldable pub token_matches : (List ℕ → List ℕ) → Text → Text → Bool
token_matches hash expected presented =
    text_eq (hash (as_bytes expected)) (hash (as_bytes presented))

unfoldable pub unwrap_or_default : Option Text → Text
unwrap_or_default none = []
unwrap_or_default (some t) = t

unfoldable pub is_authorised : (List ℕ → List ℕ) → Option Text → Option Text → Bool
is_authorised hash none token = true
is_authorised hash (some expected) token =
    let presented = unwrap_or_default token in
    not (
      ltb max_token_len (length (as_bytes presented))
      || not (token_matches hash expected presented))

unfoldable pub admitted :
    (CodeError → Text) → Result CodeError RoomId → Result (RefusalReason × Text) RoomId
admitted display (ok room) = ok room
admitted display (err e) = err (bad_room, display e)

-- The checks on a `Join`; an error is a refusal and its detail.
unfoldable pub admit :
    (List ℕ → List ℕ)
    → (CodeError → Text)
    → Option Text
    → Join
    → Result (RefusalReason × Text) RoomId
admit hash display expected join =
    if is_authorised hash expected join.token
    then admitted display (room_new join.room)
    else err (unauthorised, [])

pub data Claim : Type 0 where
  partner : ℕ → Claim
  registered : Claim
  turned_away : RefusalReason → Claim

-- The part of `serve_client` under the lock.
unfoldable pub claim_entry : Shared → ℕ → Text → Option Room → Shared × Claim
claim_entry s c room (some paired) = (s, turned_away busy)
claim_entry s c room (some (waiting w)) =
    (record s { rooms = insert room paired s.rooms }, partner w)
claim_entry s c room none =
    if leb s.max_rooms (length s.rooms)
    then (s, turned_away overloaded)
    else (record s { rooms = insert room (waiting c) s.rooms }, registered)

unfoldable pub claim : Shared → ℕ → Text → Shared × Claim
claim s c room = claim_entry s c room (get room s.rooms)

-- Whether a task still runs, and so holds its permit of the semaphore.
unfoldable pub is_running : Task → Bool
is_running (given _ _) = false
is_running ended = false
is_running _ = true

unfoldable pub count_running : List Task → ℕ
count_running [] = 0
count_running (t ∷ ts) = let rest = count_running ts in if is_running t then suc rest else rest

-- What a task meets next.
pub data Move : Type 0 where
  presents : Result Error Join → Move
  sends : Move
  breaks : Move
  leaves : Move
  picks_up : Move
  tidies : Move

pub data Event : Type 0 where
  accepts : Event
  moves : ℕ → Move → Event

unfoldable pub set_at : {A : Type 0} → ℕ → A → List A → List A
set_at i a [] = []
set_at zero a (x ∷ xs) = a ∷ xs
set_at (suc i) a (x ∷ xs) = x ∷ set_at i a xs

unfoldable pub set_task : ℕ → Task → Shared → Shared
set_task c t s = record s { tasks = set_at c t s.tasks }

unfoldable pub count_accepted : Shared → Shared
count_accepted s = record s {
  metrics = record s.metrics { accepted = fetch_add_one s.metrics.accepted };
}

unfoldable pub count_paired : Shared → Shared
count_paired s = record s { metrics = record s.metrics { paired = fetch_add_one s.metrics.paired } }

unfoldable pub count_refused : Shared → Shared
count_refused s = record s {
  metrics = record s.metrics { refused = fetch_add_one s.metrics.refused };
}

-- The body of the loop of Relay::run, for a connection that was accepted.
unfoldable pub accept : Shared → Shared
accept s =
    let counted = count_accepted s in
    if ltb (count_running s.tasks) max_pending_handshakes
    then record counted { tasks = s.tasks ++ (greeting ∷ []) }
    else count_refused counted

-- `rooms.remove`, at the end of a task.
unfoldable pub tidy : ℕ → Text → Shared → Shared
tidy c room s = set_task c ended (record s { rooms = remove room s.rooms })

-- `waiting.send(stream)`: it fails once the waiting task has dropped its receiver.
unfoldable pub hand_over : Shared → ℕ → Text → ℕ → Option Task → Shared
hand_over s c room w (some (in_room own)) = set_task w (offered own c) (set_task c (given room w) s)
hand_over s c room w _ = set_task c (cleaning room) s

unfoldable pub claimed : ℕ → Text → Shared × Claim → Shared
claimed c room (s, partner w) = set_task c (handing room w) s
claimed c room (s, registered) = set_task c (in_room room) s
claimed c room (s, turned_away _) = set_task c ended (count_refused s)

unfoldable pub enter : Shared → ℕ → Result (RefusalReason × Text) RoomId → Shared
enter s c (ok room) = claimed c room.as_str (claim s c room.as_str)
enter s c (err _) = set_task c ended (count_refused s)

module _ (hash : List ℕ → List ℕ) (display : CodeError → Text) where
  unfoldable pub serve : Shared → ℕ → Result Error Join → Shared
  serve s c (ok join) = enter s c (admit hash display s.token join)
  serve s c (err _) = set_task c ended s

  -- One step of one task; the clauses follow `serve_client` and `wait_for_partner`. A waiting task
  -- `leaves` when it is cancelled, hears something, times out or cannot write, and a joined one when
  -- the copying ends.
  unfoldable pub move : Shared → ℕ → Option Task → Move → Shared
  move s c (some greeting) (presents join) = serve s c join
  move s c (some (handing room w)) sends = hand_over s c room w (get_elem? s.tasks w)
  move s c (some (handing room w)) breaks = set_task c ended s
  move s c (some (in_room room)) leaves = set_task c (leaving room) s
  move s c (some (offered room d)) leaves = set_task c (leaving room) s
  move s c (some (offered room d)) picks_up = set_task c (joined room d) (count_paired s)
  move s c (some (joined room d)) leaves = set_task c (leaving room) s
  move s c (some (leaving room)) tidies = tidy c room s
  move s c (some (cleaning room)) tidies = tidy c room s
  move s c task m = s

  unfoldable pub step : Shared → Event → Shared
  step s accepts = accept s
  step s (moves c m) = move s c (get_elem? s.tasks c) m

  unfoldable pub run : Shared → List Event → Shared
  run s [] = s
  run s (e ∷ es) = run (step s e) es
