-- ===== src/Files/SafePath/Sound.antt =====
-- files/safe_path.rs: what an accepted path is like, and where it lands.
use rusp.Prelude.{
  ◌<◌, ◌⊎◌, ◌==◌, ◌||◌, ltb, is_ascii_alphabetic, encode_utf8, ℕ, ◌≤◌, ◌≡◌, ◌≢◌, ◌↔◌, Result-cases,
  refl, sym, ap, ◌∙◌, Bool, true, false, List, [], ◌∷◌, ◌++◌, append_assoc, append-nil, map, any,
  length, text_eq, text_eq_refl, ok, err, codes, as_bytes, is_control, >>=-eq-ok, or_left, or_right,
  All-map, ends_with, split, All, Bool-cases, inl, inr, arith, push_front,
}
use rusp.Error.{Text, TransferError}
use rusp.Files.Path.{normal, components, push, is_slash}
use rusp.Files.Path.Components.{IsName, components-push, strip_prefix-append, split-cons}
use rusp.Files.SafePath.Device.{IsDevice, is_windows_device_name-IsDevice}
use rusp.Files.SafePath.{
  max_path_len, is_windows_drive_prefixed, max_component_len, is_separator, is_nil,
  is_windows_device_name, check_component, check_components, validate,
}
use rusp.Files.SafePath.Resolve.{push_all, plain, plain_relative, is_plain_descendant, resolve}

-- A component that is safe to write: an ordinary name on Unix, and on Windows neither a path of more
-- parts nor a device nor a name that is rewritten. Its list of characters that no name may hold there
-- is checked by a build for Windows only, and is no part of this.
pub record IsSafe (c : Text) : Type 0 where
  pub name : IsName c
  pub no_separator : All (λ ch. (ch ≢ b'/') × (ch ≢ 0x5c)) c
  pub no_control : All (λ ch. ((0x20 ≤ ch) × (ch < 0x7f)) ⊎ (0xa0 ≤ ch)) c
  pub short : length (as_bytes c) ≤ 255
  pub last : (ends_with b' ' c ≡ false) × (ends_with b'.' c ≡ false)
  pub no_device : IsDevice c → ⊥

-- A path that begins with the letter of a drive.
pub record IsDrive (path : Text) : Type 0 where
  pub letter : ℕ
  pub rest : Text
  pub is_letter : ((b'A' ≤ letter) × (letter ≤ b'Z')) ⊎ ((b'a' ≤ letter) × (letter ≤ b'z'))
  pub parts : path ≡ letter ∷ b':' ∷ rest

module _ (p q : ℕ → Bool) where
  -- Neither a separator nor a control character.
  abbrev Clean : Text → Type 0
  Clean c = All (λ ch. p ch ≡ false) c × All (λ ch. q ch ≡ false) c

  push_front-Clean :
      (c : ℕ) (ws : List Text)
      → p c ≡ false
      → q c ≡ false
      → All Clean ws
      → All Clean (push_front c ws)
  push_front-Clean c [] hp hq h = (((hp, tt), (hq, tt)), tt)
  push_front-Clean c (w ∷ ws) hp hq h = (((hp, h.0.0), (hq, h.0.1)), h.1)

  -- The parts of a text have no separator, and only characters of the text.
  split-Clean : (t : Text) → any q t ≡ false → All Clean (split p t)
  unfolding split
  split-Clean [] h = ((tt, tt), tt)
  split-Clean (c ∷ cs) h =
      let rest = split-Clean cs (or_right (q c) (any q cs) h) in
      elim (Bool-cases (p c)) [
        | inl sep ↦ rw sep ((tt, tt), rest)
        | inr char ↦
            rw char (push_front-Clean c (split p cs) char (or_left (q c) (any q cs) h) rest)
      ]

component_checks :
    (offered c : Text)
    → check_component offered c ≡ ok tt
    → (is_nil c ≡ false)
      × (text_eq c (codes ".") ≡ false)
      × (text_eq c (codes "..") ≡ false)
      × (length (as_bytes c) ≤ max_component_len)
      × (ends_with b' ' c ≡ false)
      × (ends_with b'.' c ≡ false)
      × (is_windows_device_name c ≡ false)
unfolding check_component
component_checks offered c h = ground arith

-- A component that passed every check.
check_component-IsSafe :
    (offered c : Text)
    → check_component offered c ≡ ok tt
    → Clean is_separator is_control c
    → IsSafe c
check_component-IsSafe offered c h clean =
    let (full, dot, dots, short, space, point, device) = component_checks offered c h in
    record {
      name = record {
        named = λ e. cc (full, ap is_nil e);
        not_dot = λ e. cc (dot, ap (λ t. text_eq t (codes ".")) e, text_eq_refl (codes "."));
        not_dots = λ e. cc (dots, ap (λ t. text_eq t (codes "..")) e, text_eq_refl (codes ".."));
        no_slash = All-map not_slash c clean.0;
      };
      no_separator = All-map not_separator c clean.0;
      no_control = All-map not_control c clean.1;
      short = short;
      last = (space, point);
      no_device = λ d. cc (device, is_windows_device_name-IsDevice c d);
    }
  where
    not_separator : (ch : ℕ) → is_separator ch ≡ false → (ch ≢ b'/') × (ch ≢ 0x5c)
    not_separator ch e = unfold is_separator in (λ same. ground arith, λ same. ground arith)

    not_control : (ch : ℕ) → is_control ch ≡ false → ((0x20 ≤ ch) × (ch < 0x7f)) ⊎ (0xa0 ≤ ch)
    not_control ch e = unfold is_control in ground arith

    not_slash : (ch : ℕ) → is_separator ch ≡ false → is_slash ch ≡ false
    not_slash ch e = unfold is_separator is_slash in ground arith

check_components-IsSafe :
    (offered : Text) (cs : List Text)
    → check_components offered cs ≡ ok tt
    → All (Clean is_separator is_control) cs
    → All IsSafe cs
unfolding check_components
check_components-IsSafe offered [] h clean = tt
check_components-IsSafe offered (c ∷ cs) h clean =
    let (_, first, rest) =
      >>=-eq-ok (check_component offered c) (λ _. check_components offered cs) h in
    (
      check_component-IsSafe offered c first clean.0,
      check_components-IsSafe offered cs rest clean.1,
    )

path_checks :
    (offered : Text) (cs : List Text)
    → validate offered ≡ ok cs
    → (cs ≡ split is_separator offered)
      × (length (as_bytes offered) ≤ max_path_len)
      × (any is_control offered ≡ false)
      × (is_windows_drive_prefixed offered ≡ false)
      × (check_components offered cs ≡ ok tt)
unfolding validate
path_checks offered cs h = ground arith

is_windows_drive_prefixed-IsDrive :
    (path : Text) → IsDrive path → is_windows_drive_prefixed path ≡ true
unfolding is_windows_drive_prefixed as_bytes encode_utf8 is_ascii_alphabetic
is_windows_drive_prefixed-IsDrive path d =
    let small : ltb d.letter 0x80 ≡ true = ground (arith, d.is_letter) in
    rw d.parts (rw small (ground (arith, d.is_letter)))

-- Whatever is accepted is the offered text of at most 4,096 bytes cut at both kinds of slash, with no
-- letter of a drive at its front. Each part is an ordinary name: not empty, not `.` or `..`, at most
-- 255 bytes, with no slash of either kind and no control character in it, with no dot or space at its
-- end, and not a device name of Windows in any case, also with spaces or a dot and anything behind it.
pub validate-IsSafe :
    (offered : Text) (cs : List Text)
    → validate offered ≡ ok cs
    → (cs ≡ split (λ ch. ch == b'/' || ch == 0x5c) offered)
      × (length (as_bytes offered) ≤ 4096)
      × (¬ IsDrive offered)
      × All IsSafe cs
unfolding is_separator
validate-IsSafe offered cs h =
    let (parts, short, clean, no_drive, checked) = path_checks offered cs h in
    (
      parts,
      short,
      (λ d. cc (no_drive, is_windows_drive_prefixed-IsDrive offered d)),
      check_components-IsSafe offered cs checked
          (rw parts (split-Clean is_separator is_control offered clean)),
    )

components-push_all :
    (root : Text) (cs : List Text)
    → All IsSafe cs
    → components (push_all root cs) ≡ components root ++ map normal cs
unfolding push_all
components-push_all root [] h = sym (append-nil (components root))
components-push_all root (c ∷ cs) h =
    components-push_all (push root c) cs h.1
    ∙ ap (λ l. l ++ map normal cs) (components-push root c h.0.name)
    ∙ append_assoc (components root) (normal c ∷ []) (map normal cs)

plain-map : (any : Bool) (cs : List Text) → cs ≢ [] → plain any (map normal cs) ≡ true
unfolding plain
plain-map any [] h = absurd (h refl)
plain-map any (c ∷ []) h = refl
plain-map any (c ∷ d ∷ ds) h = plain-map true (d ∷ ds) (λ e. cc)

split_ne_nil : (p : ℕ → Bool) (t : Text) → split p t ≢ []
split_ne_nil p t e = let (w, ws, h) = split-cons p t in cc

-- An accepted path always resolves, so that the second check never refuses what the first let
-- through; and for every destination the result is the destination with just the accepted names
-- behind it.
pub resolve-components :
    (root offered : Text) (cs : List Text)
    → validate offered ≡ ok cs
    → (path : Text) × (resolve root offered ≡ ok path)
      × (components path ≡ components root ++ map normal cs)
unfolding resolve is_plain_descendant plain_relative
resolve-components root offered cs h =
    let (parts, _, _, safe) = validate-IsSafe offered cs h in
    let below = components-push_all root cs safe in
    let some_name : cs ≢ [] = λ e. split_ne_nil _ offered (sym parts ∙ e) in
    (
      push_all root cs,
      rw (
        h,
        below,
        strip_prefix-append (components root) (map normal cs),
        plain-map false cs some_name,
      ),
      below,
    )

-- What is refused stays refused, with the same error, and nothing else is.
resolve_refused :
    (root offered : Text) (e : TransferError)
    → (validate offered ≡ err e) ↔ (resolve root offered ≡ err e)
unfolding resolve
resolve_refused root offered e = (
  (λ h. rw h),
  (λ h. elim (Result-cases (validate offered)) [
    | inl (cs, accepted) ↦
        let (path, landed, _) = resolve-components root offered cs accepted in
        absurd (ok_ne_err path e (sym landed ∙ h))
    | inr (e', failed) ↦ cc (failed, (rw failed at h))
  ]),
)
  where
    ok_ne_err : (path : Text) (e' : TransferError) → ok path ≢ err e'
    ok_ne_err path e' same = cc
