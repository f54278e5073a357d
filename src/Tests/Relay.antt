-- ===== src/Tests/Relay.antt =====
-- The theorems about the relay, applied.
use rusp.Prelude.{
  ℕ, ◌≤◌, ◌≡◌, refl, max, Option, none, some, List, [], ◌∷◌, ◌++◌, length, codes, get_elem?, ok,
  text_eq, if◌then◌else◌, as_bytes, encode_utf8, arith,
}
use rusp.Error.{Text, CodeError}
use rusp.Code.{room_new, is_valid_room, is_room_byte}
use rusp.Protocol.Message.Codec.{Serde, RoundTrips}
use rusp.Protocol.Stream.{Source, Sink}
use rusp.Protocol.Stream.Frames.{frame_of}
use rusp.Net.Relay.{Join, RelayReply, welcome, paired}
use rusp.Net.Relay.Client.{link_new, announce, rendezvous, connected}
use rusp.Net.Relay.Greeting.{read_join-announce, rendezvous_paired}
use rusp.Net.Server.{
  RelaySettings, Event, accepts, moves, presents, sends, picks_up, leaves, tidies, tidy, in_room,
  given, waiting, bind, run, step, read_join, move, serve, enter, claim, claim_entry, claimed,
  admit, admitted, is_authorised, accept, count_accepted, count_running, is_running, set_task,
  set_at, hand_over, count_paired, max_pending_handshakes,
}
use rusp.Net.Server.Rooms.{get, insert, remove}
use rusp.Net.Server.Meeting.{run_paired}
use rusp.Net.Server.Refusals.{Kept, step-Kept}
use rusp.Net.Server.Limits.{length-run_permits}

abbrev room : Text
room = codes "k7m2"

abbrev join : Join
join = record { room = room; token = none }

abbrev settings : RelaySettings
settings = record { token = none; max_rooms = 1024; room_timeout = 600000 }

abbrev hash : List ℕ → List ℕ
hash bytes = bytes

abbrev display : CodeError → Text
display e = []

-- Two clients arrive, and the first waits.
abbrev arrivals : List Event
arrivals = accepts ∷ accepts ∷ moves 0 (presents (ok join)) ∷ []

-- The second one comes into the room too.
abbrev meeting : List Event
meeting =
    accepts
    ∷ accepts
    ∷ moves 0 (presents (ok join))
    ∷ moves 1 (presents (ok join))
    ∷ moves 1 sends
    ∷ moves 0 picks_up
    ∷ []

run_paired_example :
    (get_elem? (run hash display (bind settings) meeting).tasks 1 ≡ some (given room 0))
    × (◌≡◌ {A = ℕ} 0 0)
unfolding run bind step move serve enter claim claim_entry claimed admit admitted is_authorised
    accept count_accepted count_running is_running set_task set_at hand_over count_paired get insert
    remove room_new is_valid_room is_room_byte as_bytes encode_utf8 text_eq
run_paired_example = run_paired hash display settings meeting 0 0 1 room room refl refl

-- The first client gives up while the second one is about to hand its stream over, and a third one
-- takes the room up: the second one's tidying removes the third one's entry, so that the room is not
-- there any more although the third client waits in it.
abbrev crossing : List Event
crossing =
    accepts
    ∷ accepts
    ∷ accepts
    ∷ moves 0 (presents (ok join))
    ∷ moves 1 (presents (ok join))
    ∷ moves 0 leaves
    ∷ moves 0 tidies
    ∷ moves 2 (presents (ok join))
    ∷ moves 1 sends
    ∷ moves 1 tidies
    ∷ []

stale_removal :
    (get room (run hash display (bind settings) crossing).rooms ≡ none)
    × (get_elem? (run hash display (bind settings) crossing).tasks 2 ≡ some (in_room room))
unfolding run bind step move serve enter claim claim_entry claimed admit admitted is_authorised
    accept count_accepted count_running is_running set_task set_at hand_over tidy get insert remove
    room_new is_valid_room is_room_byte as_bytes encode_utf8 text_eq
stale_removal = (refl, refl)

step-Kept_example : Kept (waiting 0) (
    get room
      (step hash display
        (run hash display (bind settings) arrivals)
        (moves 1 (presents (ok join)))).rooms)
unfolding run bind step move serve enter claim claim_entry claimed admit admitted is_authorised
    accept count_accepted count_running is_running set_task set_at get insert remove room_new
    is_valid_room is_room_byte as_bytes encode_utf8 text_eq
step-Kept_example =
    step-Kept hash display (run hash display (bind settings) arrivals) 1 (ok join) room (waiting 0)
      refl refl

length-run_permits_example :
    (length (run hash display (bind settings) meeting).rooms ≤ max settings.max_rooms 1)
    × (length (run hash display (bind settings) meeting).rooms ≤ max_pending_handshakes)
length-run_permits_example = length-run_permits hash display settings meeting

-- A join without a token is written as its room.
abbrev join_bytes : Text → Option Text → Option (List ℕ)
join_bytes name none = some name
join_bytes name (some t) = none

abbrev joins : Serde Join
joins = record {
  to_vec_named = λ j. join_bytes j.room j.token;
  from_slice = λ bytes. some (record { room = bytes; token = none });
}

join_back :
    (name : Text) (token : Option Text) (bytes : List ℕ)
    → join_bytes name token ≡ some bytes
    → ◌≡◌ {A = Option Join}
        (some (record { room = bytes; token = none }))
        (some (record { room = name; token = token }))
join_back name none bytes h = cc
join_back name (some t) bytes h = cc

joins-RoundTrips : RoundTrips joins
joins-RoundTrips = record { reads_back = λ j bytes h. join_back j.room j.token bytes h }

-- Of the replies, one byte is a welcome.
abbrev replies : Serde RelayReply
replies = record {
  to_vec_named = λ r. none;
  from_slice = λ bytes. if text_eq bytes (1 ∷ []) then some (welcome []) else some paired;
}

abbrev quiet : Source
quiet = record { incoming = []; broken = none }

abbrev wide : Sink
wide = record { sent = []; room = 100 }

read_join-announce_example :
    ((announce joins join (link_new quiet wide [])).0 ≡ ok tt)
    × (spoken : List ℕ) × ((announce joins join (link_new quiet wide [])).1.writer.inner.sent
        ≡ [] ++ spoken)
    × (read_join joins (record { incoming = spoken ++ (7 ∷ []); broken = none }) ≡ ok join)
read_join-announce_example =
    read_join-announce joins join room quiet wide [] (7 ∷ []) none joins-RoundTrips refl
      (omega arith) (omega arith)

abbrev answering : Source
answering = record {
  incoming = frame_of (1 ∷ []) ++ (frame_of (2 ∷ []) ++ (7 ∷ []));
  broken = none;
}

rendezvous_paired_example :
    (sink : Sink) × (rendezvous joins replies
        (codes "relay:9110")
        none
        (record { as_str = room })
        10000
        (connected answering wide)
        []
      ≡ ok (record answering { incoming = 7 ∷ [] }, sink))
unfolding text_eq
rendezvous_paired_example =
    rendezvous_paired joins replies (codes "relay:9110") [] none (record { as_str = room }) 10000
      answering wide room (1 ∷ []) (2 ∷ []) (7 ∷ []) refl (omega arith) (omega arith) refl refl
      (omega arith) (omega arith) refl
