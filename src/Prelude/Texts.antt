-- ===== src/Prelude/Texts.antt =====
-- Rust's `str` as a list of code points, as far as the program uses it.
use Prim.Native.Nat.{ℕ, zero, suc, ◌+◌, ◌/◌, ◌%◌}
use Prim.Native.Char.{code}
use Prim.Native.String.{String}
use mathlib.Core.Bool.{Bool, false, ◌&&◌, ◌||◌}
use mathlib.Core.List.{List, [], ◌∷◌, ◌++◌}
use rusp.Prelude.Tests.{ltb, leb, ◌==◌, if◌then◌else◌}

-- The code points of a literal.
abbrev pub codes : String → List ℕ
codes String.[] = []
codes (String.◌∷◌ c s) = code c ∷ codes s

-- The UTF-8 encoding of a character and of a text; `str::len` counts these bytes.
unfoldable pub encode_utf8 : ℕ → List ℕ
encode_utf8 c =
    if ltb c 0x80
    then c ∷ []
    else if ltb c 0x800
    then (0xc0 + c / 64) ∷ (0x80 + c % 64) ∷ []
    else if ltb c 0x10000
    then (0xe0 + c / 4096) ∷ (0x80 + c / 64 % 64) ∷ (0x80 + c % 64) ∷ []
    else (0xf0 + c / 262144) ∷ (0x80 + c / 4096 % 64) ∷ (0x80 + c / 64 % 64) ∷ (0x80 + c % 64) ∷ []

unfoldable pub as_bytes : List ℕ → List ℕ
as_bytes [] = []
as_bytes (c ∷ cs) = encode_utf8 c ++ as_bytes cs

-- char::is_control: the category Cc.
unfoldable pub is_control : ℕ → Bool
is_control c = ltb c 0x20 || (leb 0x7f c && ltb c 0xa0)

unfoldable pub is_ascii_alphabetic : ℕ → Bool
is_ascii_alphabetic c = (leb b'a' c && leb c b'z') || (leb b'A' c && leb c b'Z')

unfoldable pub to_ascii_lowercase : ℕ → ℕ
to_ascii_lowercase c = if leb b'A' c && leb c b'Z' then c + 32 else c

-- str::starts_with and str::ends_with a character.
abbrev pub starts_with : ℕ → List ℕ → Bool
starts_with c [] = false
starts_with c (d ∷ ds) = d == c

unfoldable pub ends_with : ℕ → List ℕ → Bool
ends_with c [] = false
ends_with c (d ∷ []) = d == c
ends_with c (d ∷ e ∷ es) = ends_with c (e ∷ es)

abbrev pub push_front : ℕ → List (List ℕ) → List (List ℕ)
push_front c [] = (c ∷ []) ∷ []
push_front c (w ∷ ws) = (c ∷ w) ∷ ws

-- str::split at the characters of a class: one part more than there are such characters.
unfoldable pub split : (ℕ → Bool) → List ℕ → List (List ℕ)
split p [] = [] ∷ []
split p (c ∷ cs) = let rest = split p cs in if p c then [] ∷ rest else push_front c rest

-- `split(c).next()`
unfoldable pub until : ℕ → List ℕ → List ℕ
until c [] = []
until c (d ∷ ds) = let rest = until c ds in if d == c then [] else d ∷ rest

abbrev pub cons_trimmed : ℕ → ℕ → List ℕ → List ℕ
cons_trimmed c d [] = if d == c then [] else d ∷ []
cons_trimmed c d (e ∷ es) = d ∷ e ∷ es

-- str::trim_end_matches
unfoldable pub trim_end : ℕ → List ℕ → List ℕ
trim_end c [] = []
trim_end c (d ∷ ds) = cons_trimmed c d (trim_end c ds)

-- `[&str]::join` with one character.
unfoldable pub join : ℕ → List (List ℕ) → List ℕ
join c [] = []
join c (w ∷ []) = w
join c (w ∷ v ∷ vs) = w ++ (c ∷ join c (v ∷ vs))

-- The digits of a number, the last `fuel` of them: `fuel` digits are enough below 10 ^ fuel.
unfoldable pub digits : ℕ → ℕ → List ℕ
digits zero n = []
digits (suc fuel) n =
    let rest = digits fuel (n / 10) in
    if ltb n 10 then (b'0' + n) ∷ [] else rest ++ (b'0' + n % 10) ∷ []

-- `{}` of an unsigned integer of at most 64 bits.
unfoldable pub decimal : ℕ → List ℕ
decimal n = digits 20 n
