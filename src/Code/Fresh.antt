-- ===== src/Code/Fresh.antt =====
-- code/mod.rs: codes that were drawn at random.
use rusp.Prelude.{
  ℕ, zero, suc, ◌+◌, ◌*◌, ◌≤◌, ◌≡◌, refl, sym, ap, ◌∙◌, true, false, subst, List, [], ◌∷◌, ◌++◌,
  append_assoc, map, length, all, ok, Act, le→not_ltb, lt→ltb, arith,
}
use rusp.Error.{Text}
use rusp.Code.{
  Unicode, TransferCode, separator, min_words, max_words, min_secret_chars, display, is_empty,
  is_room_byte, normalize_from, normalize, count_chars, parse_parts, parse, room_new, is_valid_room,
}
use rusp.Code.Generate.{
  room_char, word_at, numbers, spell, fill_random, room_generate, check_count, generate,
}
use rusp.Code.Normal.{normalize_from-append, normalize_from-Plain, normalize_separator}
use rusp.Code.Letters.{
  KeepsRooms, room_char_lem, is_word, word_at_lem, room_text-Plain, count_chars-append,
  count_chars_room, split_once_room, as_bytes_room,
}

is_empty-append : (a b : Text) → is_empty a ≡ false → is_empty (a ++ b) ≡ false
is_empty-append [] b h = cc
is_empty-append (c ∷ a) b h = refl

module _ (u : Unicode) (laws : KeepsRooms u) where
  -- A text that stays as it is when it is normalised.
  record IsNormal (t : Text) : Type 0 where
    stays : normalize_from u ([], false) t ≡ (t, false)
    some_char : is_empty t ≡ false

  room-IsNormal : (t : Text) → all is_room_byte t ≡ true → is_empty t ≡ false → IsNormal t
  room-IsNormal t h some_char = record {
    stays =
        normalize_from-Plain u [] false t (room_text-Plain u laws t h)
          (λ none. cc (ap is_empty none, some_char));
    some_char = some_char;
  }

  -- A word more behind a separator.
  word-IsNormal :
      (t w : Text) → IsNormal t → is_word w ≡ true → IsNormal ((t ++ (separator ∷ [])) ++ w)
  unfolding is_word
  word-IsNormal t w h word = record {
    stays =
        normalize_from-append u ([], false) (t ++ (separator ∷ [])) w
        ∙ ap (λ s. normalize_from u s w)
            (normalize_from-append u ([], false) t (separator ∷ [])
              ∙ ap (λ s. normalize_from u s (separator ∷ [])) h.stays
              ∙ normalize_separator u t h.some_char)
        ∙ normalize_from-Plain u t true w (room_text-Plain u laws w (ground arith))
            (λ none. not_empty (ap length none));
    some_char = is_empty-append (t ++ (separator ∷ [])) w (is_empty-append t _ h.some_char);
  }
    where
      not_empty : length w ≡ 0 → ⊥
      not_empty none = ground arith

  module _ (room : Text) where
    -- A secret that has been spelled so far, with its number of words.
    record IsSpelled (k : ℕ) (secret : Text) : Type 0 where
      normal : IsNormal (room ++ (separator ∷ secret))
      long : 4 * k ≤ count_chars secret

    more-IsSpelled :
        (k : ℕ) (secret w : Text)
        → IsSpelled k secret
        → is_word w ≡ true
        → IsSpelled (suc k) ((secret ++ (separator ∷ [])) ++ w)
    unfolding is_word count_chars
    more-IsSpelled k secret w h word = record {
      normal = subst IsNormal again (word-IsNormal (room ++ (separator ∷ secret)) w h.normal word);
      long = ground (
        arith,
        count_chars-append (secret ++ (separator ∷ [])) w,
        count_chars-append secret (separator ∷ []),
        count_chars_room w,
        h.long,
      );
    }
      where
        again :
            ((room ++ (separator ∷ secret)) ++ (separator ∷ [])) ++ w
            ≡ room ++ (separator ∷ ((secret ++ (separator ∷ [])) ++ w))
        again =
            ap (◌++ w) (append_assoc room (separator ∷ secret) (separator ∷ []))
            ∙ append_assoc room (separator ∷ (secret ++ (separator ∷ []))) w

    spell-IsSpelled :
        (i k : ℕ) (secret : Text) (ns : List ℕ)
        → IsSpelled (suc i) secret
        → k ≡ length ns + suc i
        → IsSpelled k (spell (suc i) secret ns)
    unfolding spell
    spell-IsSpelled i k secret [] h e = subst (λ m. IsSpelled m secret) (omega arith) h
    spell-IsSpelled i k secret (n ∷ ns) h e = rw (lt→ltb 0 (suc i) (omega arith)) (
        spell-IsSpelled (suc i) k ((secret ++ (separator ∷ [])) ++ word_at n) ns
          (more-IsSpelled (suc i) secret (word_at n) h (word_at_lem n)) (omega arith))

    -- The whole secret.
    spell_all :
        (n : ℕ) (ns : List ℕ) → IsNormal room → n ≡ length ns → 1 ≤ n → IsSpelled n (spell 0 [] ns)
    unfolding spell is_word
    spell_all n [] h e pos = absurd (omega arith)
    spell_all n (m ∷ ns) h e pos =
        spell-IsSpelled 0 n (word_at m) ns
          (record {
            normal =
                subst IsNormal (append_assoc room (separator ∷ []) (word_at m))
                  (word-IsNormal room (word_at m) h (word_at_lem m));
            long = ground (arith, count_chars_room (word_at m), word_at_lem m);
          })
          (omega arith)

length-numbers : (n : ℕ) (raw : List ℕ) → length raw ≡ n * 2 → length (numbers raw) ≡ n
unfolding numbers
length-numbers zero [] h = refl
length-numbers zero (a ∷ raw) h = absurd (omega arith)
length-numbers (suc n) [] h = absurd (omega arith)
length-numbers (suc n) (a ∷ []) h = absurd (omega arith)
length-numbers (suc n) (a ∷ b ∷ raw) h = omega (arith, length-numbers n raw (omega arith))

all-room_char : (bytes : List ℕ) → all is_room_byte (map room_char bytes) ≡ true
all-room_char [] = refl
all-room_char (b ∷ bytes) = rw (room_char_lem b) (all-room_char bytes)

length-map : (f : ℕ → ℕ) (xs : List ℕ) → length (map f xs) ≡ length xs
length-map f [] = refl
length-map f (x ∷ xs) = ap suc (length-map f xs)

is_valid_room_lem : (t : Text) → all is_room_byte t ≡ true → length t ≡ 4 → is_valid_room t ≡ true
unfolding is_valid_room
is_valid_room_lem t h four = rw (as_bytes_room t h, four, h) refl

not_empty : (t : Text) → 1 ≤ length t → is_empty t ≡ false
not_empty [] h = absurd (omega arith)
not_empty (c ∷ t) h = refl

secret_empty : (t : Text) → 12 ≤ count_chars t → is_empty t ≡ false
unfolding count_chars
secret_empty [] h = absurd (omega arith)
secret_empty (c ∷ t) h = refl

-- A code of a good room and of a normal secret of eight characters is parsed as it is.
parse_normal :
    (u : Unicode) (room secret : Text)
    → is_valid_room room ≡ true
    → all is_room_byte room ≡ true
    → normalize u (room ++ (separator ∷ secret)) ≡ room ++ (separator ∷ secret)
    → is_empty (room ++ (separator ∷ secret)) ≡ false
    → 12 ≤ count_chars secret
    → parse u (room ++ (separator ∷ secret))
      ≡ ok (record { room = record { as_str = room }; secret = secret })
unfolding parse parse_parts room_new
parse_normal u room secret valid plain normal shown long =
    rw
      (
        normal,
        shown,
        split_once_room room secret plain,
        secret_empty secret long,
        le→not_ltb (count_chars secret) min_secret_chars (omega arith),
        valid,
      )
      refl

-- A code that is generated is accepted when it is typed in as it is displayed: for three to twelve
-- words, and when the random source gives the bytes that it is asked for, there is such a code.
pub parse-generate :
    {S : Type 0} (getrandom : ℕ → Act Text S (List ℕ)) (u : Unicode) (n : ℕ) (s s1 s2 : S)
    (raw bytes : List ℕ)
    → KeepsRooms u
    → min_words ≤ n
    → n ≤ max_words
    → getrandom (n * 2) s ≡ (ok raw, s1)
    → length raw ≡ n * 2
    → getrandom 4 s1 ≡ (ok bytes, s2)
    → length bytes ≡ 4
    → (c : TransferCode) × (generate getrandom n s ≡ (ok c, s2)) × (parse u (display c) ≡ ok c)
unfolding generate check_count fill_random room_generate display
parse-generate getrandom u n s s1 s2 raw bytes laws few many drawn full drawn_room full_room =
    let room = map room_char bytes in
    let plain = all-room_char bytes in
    let four = length-map room_char bytes ∙ full_room in
    let start = room-IsNormal u laws room plain (not_empty room (omega (arith, four))) in
    let spelled =
      spell_all u laws room n (numbers raw) start (sym (length-numbers n raw full)) (omega arith) in
    (
      record { room = record { as_str = room }; secret = spell 0 [] (numbers raw) },
      rw (le→not_ltb n min_words few, le→not_ltb max_words n many, drawn, drawn_room) refl,
      parse_normal u room (spell 0 [] (numbers raw)) (is_valid_room_lem room plain four) plain
          (unfold normalize in ap (λ t. t.0) spelled.normal.stays) spelled.normal.some_char
          (omega (arith, spelled.long)),
    )
