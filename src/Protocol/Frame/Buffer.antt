-- ===== src/Protocol/Frame/Buffer.antt =====
-- protocol/frame.rs: the assembly buffer seen as the payload that it holds.
use rusp.Prelude.{
  ℕ, ◌+◌, ◌-◌, ◌*◌, ◌^◌, ◌%◌, ◌≤◌, max, ◌≡◌, refl, ap, ◌∙◌, Bool-cases, inl, inr, some, List, [],
  ◌∷◌, ◌++◌, length, take, drop, replicate, ltb, if◌then◌else◌, ok, err, be_bytes, arith,
  append_assoc, length-append, length-take, length-drop, length-replicate, take-append,
  take-append_le, length-zero, take_over, drop-append, drop-append_le, drop-take, length-be_bytes,
}
use rusp.Error.{frame_too_large, protocol}
use rusp.Protocol.Frame.{
  FrameBuf, len_prefix, write_at, with_capacity, clear, payload_len, payload, payload_mut, ensure,
  push_slice, push_u8, claim, fill, set_payload_len, finish,
}

-- The used part covers the prefix and lies inside the allocation.
pub record IsFrame (b : FrameBuf) : Type 0 where
  pub prefixed : len_prefix ≤ b.len
  pub allocated : b.len ≤ length b.bytes

length-write_at :
    (i : ℕ) (w v : List ℕ) → i + length w ≤ length v → length (write_at i w v) ≡ length v
unfolding write_at
length-write_at i w v h = omega (
  arith,
  length-append (take i v) (w ++ drop (i + length w) v),
  length-append w (drop (i + length w) v),
  length-take i v,
  length-drop (i + length w) v,
)

-- The bytes up to the end of a write.
take-write_at :
    (i : ℕ) (w v : List ℕ) → i ≤ length v → take (i + length w) (write_at i w v) ≡ take i v ++ w
unfolding write_at
take-write_at i w v h = rw (← append_assoc) (
    take-append (i + length w) (take i v ++ w) (drop (i + length w) v)
      (omega (arith, length-append (take i v) w, length-take i v)))

length-ensure :
    (b : FrameBuf) (n : ℕ)
    → (n ≤ length (ensure b n).bytes) × (length b.bytes ≤ length (ensure b n).bytes)
unfolding ensure
length-ensure b n = elim (Bool-cases (ltb (length b.bytes) n)) [
  | inl small ↦ rw small (omega (arith, grown), omega (arith, grown))
  | inr large ↦ rw large (ground arith, omega arith)
]
  where
    grown :
        length (b.bytes ++ replicate (max n (length b.bytes * 2) - length b.bytes) 0)
        ≡ length b.bytes + (max n (length b.bytes * 2) - length b.bytes)
    grown = length-append b.bytes _ ∙ ap (◌+◌ (length b.bytes)) (length-replicate _ _)

take-ensure :
    (b : FrameBuf) (n k : ℕ) → k ≤ length b.bytes → take k (ensure b n).bytes ≡ take k b.bytes
unfolding ensure
take-ensure b n k h = elim (Bool-cases (ltb (length b.bytes) n)) [
  | inl small ↦ rw small (take-append_le k b.bytes _ h)
  | inr large ↦ rw large
]

pub push_u8-eq-push_slice : (b : FrameBuf) (byte : ℕ) → push_u8 b byte ≡ push_slice b (byte ∷ [])
unfolding push_u8 push_slice
push_u8-eq-push_slice b byte = refl

pub push_slice-IsFrame : (b : FrameBuf) (w : List ℕ) → IsFrame b → IsFrame (push_slice b w)
unfolding push_slice
push_slice-IsFrame b w h =
    let size =
      length-write_at b.len w (ensure b (b.len + length w)).bytes
        (length-ensure b (b.len + length w)).0 in
    record {
      prefixed = omega arith;
      allocated = omega (arith, size, (length-ensure b (b.len + length w)).0);
    }

pub payload-push_slice :
    (b : FrameBuf) (w : List ℕ) → IsFrame b → payload (push_slice b w) ≡ payload b ++ w
unfolding push_slice payload
payload-push_slice b w h =
    rw
      (
        take-write_at b.len w (ensure b (b.len + length w)).bytes
            (omega (arith, (length-ensure b (b.len + length w)).1)),
        take-ensure b (b.len + length w) b.len h.allocated,
      )
      (drop-append_le len_prefix (take b.len b.bytes) w (omega (arith, length-take b.len b.bytes)))

pub length-payload : (b : FrameBuf) → IsFrame b → length (payload b) ≡ payload_len b
unfolding payload payload_len
length-payload b h =
    omega (arith, length-drop len_prefix (take b.len b.bytes), length-take b.len b.bytes)

pub clear-IsFrame : (b : FrameBuf) → IsFrame b → IsFrame (clear b)
unfolding clear
clear-IsFrame b h = record { prefixed = omega arith; allocated = omega arith }

pub payload-clear : (b : FrameBuf) → payload (clear b) ≡ []
unfolding payload clear
payload-clear b = length-zero _ (
    omega (arith, length-drop len_prefix (take len_prefix b.bytes), length-take len_prefix b.bytes))

pub with_capacity-IsFrame : (n : ℕ) → IsFrame (with_capacity n)
unfolding with_capacity
with_capacity-IsFrame n = record {
  prefixed = omega arith;
  allocated = omega (arith, length-replicate {A = ℕ} (len_prefix + n) 0);
}

-- In-place encryption: the payload is replaced by bytes of the same length.
pub payload_mut-IsFrame :
    (b : FrameBuf) (w : List ℕ) → IsFrame b → length w ≡ payload_len b → IsFrame (payload_mut b w)
unfolding payload_mut payload_len
payload_mut-IsFrame b w h e = record {
  prefixed = h.prefixed;
  allocated = omega (arith, length-write_at len_prefix w b.bytes (omega arith));
}

pub payload-payload_mut :
    (b : FrameBuf) (w : List ℕ)
    → IsFrame b
    → length w ≡ payload_len b
    → payload (payload_mut b w) ≡ w
unfolding payload_mut payload_len payload
payload-payload_mut b w h e =
    let used : b.len ≡ len_prefix + length w = omega arith in
    ap (λ k. drop len_prefix (take k (write_at len_prefix w b.bytes))) used
    ∙ ap (drop len_prefix) (take-write_at len_prefix w b.bytes (omega arith))
    ∙ drop-append len_prefix (take len_prefix b.bytes) w
        (omega (arith, length-take len_prefix b.bytes))

-- A claimed region that was filled in part, and shrunk to what was filled, holds just that.
pub claim_filled :
    (b : FrameBuf) (n : ℕ) (w : List ℕ)
    → IsFrame b
    → length w ≤ n
    → (b' : FrameBuf) × (set_payload_len
          (fill (claim b n).0 (claim b n).1 w)
          (payload_len b + length w)
        ≡ some b')
      × IsFrame b'
      × (payload b' ≡ payload b ++ w)
unfolding claim fill set_payload_len payload_len payload
claim_filled b n w h fits = (
  record { bytes = written; len = len_prefix + (b.len - len_prefix + length w) },
  ground (arith, size),
  record { prefixed = omega arith; allocated = omega (arith, size) },
  ap (λ k. drop len_prefix (take k written)) used
      ∙ ap (drop len_prefix)
          (take-write_at b.len w (ensure b (b.len + n)).bytes (omega (arith, room)))
      ∙ ap (λ l. drop len_prefix (l ++ w)) (take-ensure b (b.len + n) b.len h.allocated)
      ∙ drop-append_le len_prefix (take b.len b.bytes) w (omega (arith, length-take b.len b.bytes)),
)
  where
    written : List ℕ
    written = write_at b.len w (ensure b (b.len + n)).bytes

    room :
        (b.len + n ≤ length (ensure b (b.len + n)).bytes)
        × (length b.bytes ≤ length (ensure b (b.len + n)).bytes)
    room = length-ensure b (b.len + n)

    size : b.len + length w ≤ length written
    size =
        omega
          (arith, length-write_at b.len w (ensure b (b.len + n)).bytes (omega (arith, room)), room)

    used : len_prefix + (b.len - len_prefix + length w) ≡ b.len + length w
    used = omega (arith, h.prefixed)

-- `finish` refuses a payload over the limit, and else returns prefix and payload.
pub finish_lem :
    (b : FrameBuf) (max_frame : ℕ)
    → IsFrame b
    → (finish b max_frame).0 ≡ (
        if ltb max_frame (payload_len b)
        then err (protocol (frame_too_large (payload_len b) max_frame))
        else ok (be_bytes 4 (payload_len b % 2 ^ 32) ++ payload b))
unfolding finish payload write_at
finish_lem b max_frame h = elim (Bool-cases (ltb max_frame (payload_len b))) [
  | inl large ↦ rw large
  | inr small ↦
      rw small (ap ok (stamped (be_bytes 4 (payload_len b % 2 ^ 32)) (length-be_bytes 4 _)))
]
  where
    stamped :
        (p : List ℕ)
        → length p ≡ len_prefix
        → take b.len (write_at 0 p b.bytes) ≡ p ++ drop len_prefix (take b.len b.bytes)
    stamped p e = rw (drop-take len_prefix b.len b.bytes h.prefixed) (
        take_over p (drop (0 + length p) b.bytes) b.len (omega arith)
        ∙ ap (λ k. p ++ take (b.len - k) (drop (0 + k) b.bytes)) e)

pub finish-IsFrame : (b : FrameBuf) (max_frame : ℕ) → IsFrame b → IsFrame (finish b max_frame).1
unfolding finish
finish-IsFrame b max_frame h = elim (Bool-cases (ltb max_frame (payload_len b))) [
  | inl large ↦ rw large h
  | inr small ↦ rw small (record {
    prefixed = h.prefixed;
    allocated = omega (
      arith,
      h.prefixed,
      h.allocated,
      length-be_bytes 4 (payload_len b % 2 ^ 32),
      length-write_at 0 (be_bytes 4 (payload_len b % 2 ^ 32)) b.bytes,
    );
  })
]
