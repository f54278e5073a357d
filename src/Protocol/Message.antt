-- ===== src/Protocol/Message.antt =====
-- protocol/message.rs: the messages of the protocol.
pub mod Failure
pub mod Kind
pub mod Codec
pub mod RoundTrip
use Prim.Native.String.{String}
use rusp.Prelude.{
  ℕ, ℤ, ◌+◌, ◌*◌, min, Bool, true, false, not, ◌&&◌, Option, none, some, List, [], ◌∷◌, take, map,
  any, ◌==◌, text_eq, if◌then◌else◌,
}
use rusp.Error.{Text, Message, lit, number, hex}

-- The side of the transfer that a peer is.
pub data Role : Type 0 where
  sender receiver : Role

unfoldable pub peer : Role → Role
peer sender = receiver
peer receiver = sender

unfoldable pub label : Role → String
label sender = "sender"
label receiver = "receiver"

-- derive(PartialEq)
unfoldable pub role_eq : Role → Role → Bool
role_eq sender sender = true
role_eq receiver receiver = true
role_eq _ _ = false

-- The 32 bytes of a digest.
abbrev pub Hash32 : Type 0
Hash32 = List ℕ

-- The first four bytes in hexadecimal.
unfoldable pub short : Hash32 → Message
short h = map hex (take 4 h)

pub record Hello : Type 0 where
  pub min_version : ℕ
  pub max_version : ℕ
  pub role : Role
  pub agent : Text

-- `features` is a BTreeSet: its names, in order and without repetition.
pub record Capabilities : Type 0 where
  pub max_frame : ℕ
  pub chunk_size : ℕ
  pub features : List Text

unfoldable pub has : Capabilities → Text → Bool
has c feature = any (text_eq feature) c.features

-- `BTreeSet::intersection`: the names of the first set that the second has too, in order.
unfoldable pub common : List Text → Capabilities → List Text
common [] peer_caps = []
common (f ∷ fs) peer_caps = if has peer_caps f then f ∷ common fs peer_caps else common fs peer_caps

unfoldable pub intersect : Capabilities → Capabilities → Capabilities
intersect ours theirs = record {
  max_frame = min ours.max_frame theirs.max_frame;
  chunk_size = min ours.chunk_size theirs.chunk_size;
  features = common ours.features theirs;
}

abbrev pub EntryKind : Type 0
EntryKind = ℕ

unfoldable pub is_file : EntryKind → Bool
is_file k = k == 0

unfoldable pub is_directory : EntryKind → Bool
is_directory k = k == 1

unfoldable pub is_unknown : EntryKind → Bool
is_unknown k = not (is_file k) && not (is_directory k)

-- The permission bits are kept; the modification time is carried and never read.
pub record Entry : Type 0 where
  pub path : Text
  pub kind : EntryKind
  pub size : ℕ
  pub mode : Option ℕ
  pub mtime : Option ℤ

pub record Offer : Type 0 where
  pub entries : List Entry
  pub total_bytes : ℕ
  pub name_hint : Option Text

abbrev pub FailureCode : Type 0
FailureCode = ℕ

-- Display for FailureCode
unfoldable pub failure_text : FailureCode → Message
failure_text c =
    if c == 1
    then lit "internal error" ∷ []
    else if c == 2
    then lit "bad message" ∷ []
    else if c == 3
    then lit "integrity failure" ∷ []
    else if c == 4
    then lit "filesystem error" ∷ []
    else if c == 5
    then lit "refused" ∷ []
    else if c == 6
    then lit "unsupported" ∷ []
    else lit "error " ∷ number c ∷ []

pub record Summary : Type 0 where
  pub files : ℕ
  pub bytes : ℕ
  pub skipped : ℕ

pub data ControlMessage : Type 0 where
  capabilities : Capabilities → ControlMessage
  offer : Offer → ControlMessage
  accept : List ℕ → ControlMessage
  decline : Option Text → ControlMessage
  file_start : ℕ → ControlMessage
  file_end : ℕ → Hash32 → ℕ → ControlMessage
  complete : Summary → ControlMessage
  cancel : Option Text → ControlMessage
  failure : FailureCode → Text → ControlMessage
  keepalive : ControlMessage

unfoldable pub name : ControlMessage → String
name (capabilities _) = "capabilities"
name (offer _) = "offer"
name (accept _) = "accept"
name (decline _) = "decline"
name (file_start _) = "file-start"
name (file_end _ _ _) = "file-end"
name (complete _) = "complete"
name (cancel _) = "cancel"
name (failure _ _) = "failure"
name keepalive = "keepalive"

pub data Incoming : Type 0 where
  control : ControlMessage → Incoming
  data_chunk : ℕ → List ℕ → Incoming

pub data Handshake : Type 0 where
  hello : Hello → Handshake
  pake : List ℕ → Handshake
  confirm : List ℕ → Handshake

unfoldable pub handshake_name : Handshake → String
handshake_name (hello _) = "hello"
handshake_name (pake _) = "pake"
handshake_name (confirm _) = "confirm"
