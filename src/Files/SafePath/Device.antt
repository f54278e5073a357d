-- ===== src/Files/SafePath/Device.antt =====
-- files/safe_path.rs: what a name that is no device name is like.
use rusp.Prelude.{
  ℕ, ◌≡◌, ◌⊎◌, refl, sym, ap, ◌∙◌, subst, Bool, true, false, List, [], ◌∷◌, ◌++◌, map, any,
  replicate, text_eq, text_eq_refl, codes, to_ascii_lowercase, trim_end, until, All, All-map,
  append_assoc, or_left, or_right, arith, ◌==◌, ◌||◌, inl, inr, zero, suc,
}
use rusp.Error.{Text}
use rusp.Files.SafePath.{is_windows_device_name}

-- The devices of Windows, which open whatever stands behind a dot.
abbrev devices : List Text
devices =
    codes "con"
    ∷ codes "prn"
    ∷ codes "aux"
    ∷ codes "nul"
    ∷ codes "com1"
    ∷ codes "com2"
    ∷ codes "com3"
    ∷ codes "com4"
    ∷ codes "com5"
    ∷ codes "com6"
    ∷ codes "com7"
    ∷ codes "com8"
    ∷ codes "com9"
    ∷ codes "lpt1"
    ∷ codes "lpt2"
    ∷ codes "lpt3"
    ∷ codes "lpt4"
    ∷ codes "lpt5"
    ∷ codes "lpt6"
    ∷ codes "lpt7"
    ∷ codes "lpt8"
    ∷ codes "lpt9"
    ∷ []

abbrev Among : Text → List Text → Type 0
Among d [] = ⊥
Among d (e ∷ es) = (d ≡ e) ⊎ Among d es

-- A name that is one of the devices in lower or upper case, with any number of spaces behind it, and
-- then nothing or a dot and anything.
pub record IsDevice (c : Text) : Type 0 where
  pub stem : Text
  pub spaces : ℕ
  pub rest : Text
  pub parts : c ≡ stem ++ (replicate spaces b' ' ++ rest)
  pub ends : (rest ≡ []) ⊎ ((more : Text) × (rest ≡ b'.' ∷ more))
  pub device : Among (map to_ascii_lowercase stem) devices

-- A letter or a digit of a device name.
abbrev Plain : ℕ → Type 0
Plain ch = ((ch == b' ') ≡ false) × ((ch == b'.') ≡ false)

unlowered : (ch : ℕ) → Plain (to_ascii_lowercase ch) → Plain ch
unfolding to_ascii_lowercase
unlowered ch h = ground arith

All-unlowered : (stem : Text) → All Plain (map to_ascii_lowercase stem) → All Plain stem
All-unlowered [] h = tt
All-unlowered (c ∷ cs) h = (unlowered c h.0, All-unlowered cs h.1)

Among-All : (d : Text) (ds : List Text) → All (All Plain) ds → Among d ds → All Plain d
Among-All d [] h a = absurd a
Among-All d (e ∷ es) h (inl same) = subst (All Plain) (sym same) h.0
Among-All d (e ∷ es) h (inr later) = Among-All d es h.1 later

abbrev is_odd : ℕ → Bool
is_odd ch = ch == b' ' || ch == b'.'

All-Plain : (t : Text) → any is_odd t ≡ false → All Plain t
All-Plain [] h = tt
All-Plain (c ∷ cs) h =
    let here = or_left (is_odd c) (any is_odd cs) h in
    (
      (or_left (c == b' ') (c == b'.') here, or_right (c == b' ') (c == b'.') here),
      All-Plain cs (or_right (is_odd c) (any is_odd cs) h),
    )

All-All-Plain : (ds : List Text) → any (any is_odd) ds ≡ false → All (All Plain) ds
All-All-Plain [] h = tt
All-All-Plain (d ∷ ds) h = (
  All-Plain d (or_left (any is_odd d) (any (any is_odd) ds) h),
  All-All-Plain ds (or_right (any is_odd d) (any (any is_odd) ds) h),
)

devices-Plain : All (All Plain) devices
devices-Plain = All-All-Plain devices refl

until-append :
    (t rest : Text)
    → All (λ ch. (ch == b'.') ≡ false) t
    → (rest ≡ []) ⊎ ((more : Text) × (rest ≡ b'.' ∷ more))
    → until b'.' (t ++ rest) ≡ t
unfolding until
until-append [] rest h (inl e) = rw e refl
until-append [] rest h (inr (more, e)) = rw e refl
until-append (c ∷ cs) rest h ends = rw h.0 (ap (◌∷◌ c) (until-append cs rest h.1 ends))

trim_end-replicate : (n : ℕ) → trim_end b' ' (replicate n b' ') ≡ []
unfolding trim_end
trim_end-replicate zero = refl
trim_end-replicate (suc n) = rw (trim_end-replicate n) refl

trim_end-append : (t : Text) (n : ℕ) → All Plain t → trim_end b' ' (t ++ replicate n b' ') ≡ t
unfolding trim_end
trim_end-append [] n h = trim_end-replicate n
trim_end-append (c ∷ []) n h = rw (trim_end-replicate n, h.0.0) refl
trim_end-append (c ∷ d ∷ ds) n h = rw (trim_end-append (d ∷ ds) n h.1) refl

All-replicate : (n : ℕ) → All (λ ch. (ch == b'.') ≡ false) (replicate n b' ')
All-replicate zero = tt
All-replicate (suc n) = (refl, All-replicate n)

All-append :
    (t u : Text)
    → All (λ ch. (ch == b'.') ≡ false) t
    → All (λ ch. (ch == b'.') ≡ false) u
    → All (λ ch. (ch == b'.') ≡ false) (t ++ u)
All-append [] u h k = k
All-append (c ∷ cs) u h k = (h.0, All-append cs u h.1 k)

or_true : (b : Bool) → (b || true) ≡ true
or_true true = refl
or_true false = refl

any-Among : (d : Text) (ds : List Text) → Among d ds → any (text_eq d) ds ≡ true
any-Among d [] a = absurd a
any-Among d (e ∷ es) (inl same) = rw same (rw (text_eq_refl e) refl)
any-Among d (e ∷ es) (inr later) = rw (any-Among d es later) (or_true (text_eq d e))

-- Every device is recognised.
pub is_windows_device_name-IsDevice : (c : Text) → IsDevice c → is_windows_device_name c ≡ true
unfolding is_windows_device_name
is_windows_device_name-IsDevice c h =
    let clean : All Plain h.stem =
      All-unlowered h.stem (Among-All _ devices devices-Plain h.device) in
    let blanks = replicate h.spaces b' ' in
    let no_dot =
      All-append h.stem blanks (All-map (λ ch p. p.1) h.stem clean) (All-replicate h.spaces) in
    let cut : until b'.' c ≡ h.stem ++ blanks =
      ap (until b'.') (h.parts ∙ sym (append_assoc h.stem blanks h.rest))
      ∙ until-append (h.stem ++ blanks) h.rest no_dot h.ends in
    let named : map to_ascii_lowercase (trim_end b' ' (until b'.' c))
        ≡ map to_ascii_lowercase h.stem =
      ap (λ t. map to_ascii_lowercase (trim_end b' ' t)) cut
      ∙ ap (map to_ascii_lowercase) (trim_end-append h.stem h.spaces clean) in
    rw named (any-Among (map to_ascii_lowercase h.stem) devices h.device)
