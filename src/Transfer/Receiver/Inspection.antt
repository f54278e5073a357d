-- ===== src/Transfer/Receiver/Inspection.antt =====
-- transfer/receiver.rs: what an offer that passed `inspect` is like.
use rusp.Prelude.{
  ◌≤◌, ◌<◌, ◌≡◌, ◌≢◌, sym, ap, false, List, [], ◌∷◌, length, any, map, All, Distinct, text_eq,
  text_eq_refl, or_left, or_right, ltb, ◌==◌, Bool-cases, inl, inr, ok, >>=-eq-ok, map_err-eq-ok,
  fail_if-eq-ok, arith,
}
use rusp.Error.{Text, transfer, from_transfer}
use rusp.Protocol.Message.{Entry, Offer}
use rusp.Files.SafePath.{validate}
use rusp.Files.SafePath.Sound.{IsSafe, validate-IsSafe}
use rusp.Transfer.Sender.{bad}
use rusp.Transfer.Receiver.{inspect, inspect_entries, max_entries}

-- The path of an entry is one that `validate` accepts.
abbrev pub IsAcceptable : Entry → Type 0
IsAcceptable entry = (cs : List Text) × (validate entry.path ≡ ok cs) × All IsSafe cs

abbrev pub path_of : Entry → Text
path_of entry = entry.path

not_seen : (p : Text) (seen : List Text) → any (text_eq p) seen ≡ false → All (λ s. p ≢ s) seen
not_seen p [] h = tt
not_seen p (s ∷ seen) h = (
  (λ same.
      cc (or_left (text_eq p s) (any (text_eq p) seen) h, ap (text_eq p) same, text_eq_refl p)),
  not_seen p seen (or_right (text_eq p s) (any (text_eq p) seen) h),
)

-- No path of the entries is one that was seen before.
abbrev Fresh : List Text → List Entry → Type 0
Fresh seen entries = All (λ e. All (λ s. e.path ≢ s) seen) entries

first_seen :
    (p : Text) (seen : List Text) (entries : List Entry)
    → Fresh (p ∷ seen) entries
    → Fresh seen entries
first_seen p seen [] h = tt
first_seen p seen (e ∷ es) h = (h.0.1, first_seen p seen es h.1)

differs :
    (p : Text) (seen : List Text) (entries : List Entry)
    → Fresh (p ∷ seen) entries
    → All (λ q. p ≢ q) (map path_of entries)
differs p seen [] h = tt
differs p seen (e ∷ es) h = ((λ same. h.0.0 (sym same)), differs p seen es h.1)

inspect_entries_lem :
    (seen : List Text) (entries : List Entry)
    → inspect_entries seen entries ≡ ok tt
    → All IsAcceptable entries × Distinct (map path_of entries) × Fresh seen entries
unfolding inspect_entries
inspect_entries_lem seen [] h = (tt, tt, tt)
inspect_entries_lem seen (entry ∷ rest) h =
    let (cs, checked, h1) = >>=-eq-ok (from_transfer (validate entry.path)) _ h in
    let accepted = map_err-eq-ok transfer (validate entry.path) checked in
    let (new, h2) = fail_if-eq-ok (any (text_eq entry.path) seen) _ _ h1 in
    let (fine, distinct, fresh) = inspect_entries_lem (entry.path ∷ seen) rest h2 in
    (
      ((cs, accepted, (validate-IsSafe entry.path cs accepted).3), fine),
      (differs entry.path seen rest fresh, distinct),
      (not_seen entry.path seen new, first_seen entry.path seen rest fresh),
    )

-- An offer that is not refused has at least one entry and at most a million, each with a path that is
-- safe to write, and no two entries have the same path.
pub inspect_lem :
    (offer : Offer)
    → inspect offer ≡ ok tt
    → (0 < length offer.entries)
      × (length offer.entries ≤ max_entries)
      × All IsAcceptable offer.entries
      × Distinct (map path_of offer.entries)
unfolding inspect bad
inspect_lem offer h = elim (Bool-cases (length offer.entries == 0)) [
  | inl empty ↦ cc (rw empty at h)
  | inr full ↦ elim (Bool-cases (ltb max_entries (length offer.entries))) [
    | inl many ↦ cc (rw (full, many) at h)
    | inr few ↦
        let (fine, distinct, _) = inspect_entries_lem [] offer.entries (rw (full, few) at h) in
        (ground arith, ground arith, fine, distinct)
  ]
]
