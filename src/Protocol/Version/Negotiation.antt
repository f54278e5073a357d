-- ===== src/Protocol/Version/Negotiation.antt =====
-- protocol/mod.rs: when two builds can speak, and at which version.
use rusp.Prelude.{ℕ, ◌≤◌, ◌≡◌, ◌↔◌, min, ok, arith}
use rusp.Protocol.Message.{Hello}
use rusp.Protocol.Version.{negotiate_version, protocol_min, protocol_max}

-- A version both sides accept.
abbrev pub Speaks : Hello → ℕ → Type 0
Speaks peer v =
    (protocol_min ≤ v) × (v ≤ protocol_max) × (peer.min_version ≤ v) × (v ≤ peer.max_version)

-- Negotiation ends with a version just when both sides accept that version and it is the smaller of
-- the two maxima, so that no version which both accept is newer. In every other case, a range of the
-- peer that is impossible or has nothing in common with ours, it is an error.
pub negotiate_version-highest :
    (peer : Hello) (v : ℕ)
    → (negotiate_version peer ≡ ok v) ↔ (Speaks peer v × (v ≡ min protocol_max peer.max_version))
unfolding negotiate_version
negotiate_version-highest peer v = ((λ h. ground arith), (λ h. ground arith))
