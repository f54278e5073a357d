-- ===== src/Protocol/Externals.antt =====
-- What the protocol code takes from elsewhere: the crates for MessagePack, the AEAD and the other
-- primitives, the version string of the build, and the text that `Display` gives for an error.
use rusp.Error.{Error, Text}
use rusp.Crypto.Cipher.{Aead}
use rusp.Crypto.Keys.{Primitives}
use rusp.Protocol.Message.{Hello, ControlMessage}
use rusp.Protocol.Message.Codec.{Serde}

pub record Externals : Type 0 where
  pub aead : Aead
  pub primitives : Primitives
  pub hello_serde : Serde Hello
  pub control_serde : Serde ControlMessage
  pub build : Text
  pub display : Error → Text
