-- ===== src/Files/Scan/Manifest.antt =====
-- files/scan.rs: what a finished scan offers.
use rusp.Prelude.{
  ℕ, ◌+◌, ◌^◌, ◌%◌, ◌≤◌, ◌≡◌, ◌⊎◌, refl, ap, ◌∙◌, subst, Bool, false, not, ◌&&◌, Bool-cases, inl,
  inr, Option, none, some, List, [], ◌∷◌, ◌++◌, length, All, ltb, ◌==◌, Result, ok, err, >>=-eq-ok,
  fail_if-eq-ok, arith,
}
use rusp.Error.{Error, Text, Message}
use rusp.Files.Scan.{Source, Scan}
use rusp.Files.Scan.Walk.{
  Kind, symlink, directory, regular, special, Metadata, Item, FileTree, with_path, directory_source,
  file_source, push_source, push_file, skip, skip_link, skip_special, check_path, check_count,
  add_item_file, add_kind, add_item, add_items, add_directory, add_top, add_named, add_path,
  add_paths, disambiguate, top_level_name, is_symlink, is_nil, name_hint, empty_scan, add_checked,
  item_name, too_many, too_large, target_of, finish_scan, scan,
}
use rusp.Transfer.Receiver.{max_entries}

-- A file with the place it is read from, or a directory.
abbrev pub IsPlaced : Source → Type 0
IsPlaced s =
    ((s.entry.kind ≡ 0) × (path : Text) × (s.path ≡ some path))
    ⊎ ((s.entry.kind ≡ 1) × (s.entry.size ≡ 0) × (s.path ≡ none))

unfoldable pub sum_sizes : List Source → ℕ
sum_sizes [] = 0
sum_sizes (s ∷ ss) = s.entry.size + sum_sizes ss

-- Each entry can be sent, and the total is the sum of the sizes.
pub record IsManifest (scan : Scan) : Type 0 where
  pub placed : All IsPlaced scan.sources
  pub counted : scan.total_bytes ≡ sum_sizes scan.sources % 2 ^ 64

sum_sizes-append :
    (ss : List Source) (s : Source) → sum_sizes (ss ++ (s ∷ [])) ≡ sum_sizes ss + s.entry.size
unfolding sum_sizes
sum_sizes-append [] s = omega arith
sum_sizes-append (x ∷ ss) s = omega (arith, sum_sizes-append ss s)

All-append_one :
    (ss : List Source) (s : Source) → All IsPlaced ss → IsPlaced s → All IsPlaced (ss ++ (s ∷ []))
All-append_one [] s h p = (p, tt)
All-append_one (x ∷ ss) s (q, h) p = (q, All-append_one ss s h p)

push_directory-IsManifest :
    (scan : Scan) (path : Text)
    → IsManifest scan
    → IsManifest (push_source scan (directory_source path))
unfolding push_source directory_source
push_directory-IsManifest scan path h = record {
  placed = All-append_one scan.sources (directory_source path) h.placed (inr (refl, refl, refl));
  counted =
      h.counted
      ∙ ap (λ n. n % 2 ^ 64) (omega (arith, sum_sizes-append scan.sources (directory_source path)));
}

push_file-IsManifest :
    (scan : Scan) (name : Text) (m : Metadata) (path : Text)
    → IsManifest scan
    → IsManifest (push_file scan name m path)
unfolding push_file push_source file_source
push_file-IsManifest scan name m path h = record {
  placed = All-append_one scan.sources (file_source name m path) h.placed (inl (refl, path, refl));
  counted = omega (arith, h.counted, sum_sizes-append scan.sources (file_source name m path));
}

skip-IsManifest : (scan : Scan) (why : Message) → IsManifest scan → IsManifest (skip scan why)
unfolding skip
skip-IsManifest scan why h = record { placed = h.placed; counted = h.counted }

ok-IsManifest :
    {a b : Scan} → ◌≡◌ {A = Result Error Scan} (ok a) (ok b) → IsManifest a → IsManifest b
ok-IsManifest {a} {b} e h = subst IsManifest (value e) h
  where
    value : ◌≡◌ {A = Result Error Scan} (ok a) (ok b) → a ≡ b
    value x = cc

add_kind-IsManifest :
    (s : Scan) (name : Text) (item : Item) (k : Kind) (t : Scan)
    → IsManifest s
    → add_kind s name item k ≡ ok t
    → IsManifest t
unfolding add_kind add_item_file skip_link skip_special
add_kind-IsManifest s name item symlink t h e = ok-IsManifest e (skip-IsManifest s _ h)
add_kind-IsManifest s name item directory t h e =
    ok-IsManifest e (push_directory-IsManifest s name h)
add_kind-IsManifest s name item special t h e = ok-IsManifest e (skip-IsManifest s _ h)
add_kind-IsManifest s name item regular t h e =
    let (m, _, pushed) = >>=-eq-ok (with_path item.path item.metadata) _ e in
    ok-IsManifest pushed (push_file-IsManifest s name m item.path h)

check_count-eq-ok :
    (s : Scan) (why : Message) (t : Scan)
    → check_count s why ≡ ok t
    → (◌≡◌ {A = Result Error Scan} (ok s) (ok t)) × (length s.sources ≤ max_entries)
unfolding check_count
check_count-eq-ok s why t e = elim (Bool-cases (ltb max_entries (length s.sources))) [
  | inl many ↦ cc (rw many at e)
  | inr few ↦ ((rw few at e), ground arith)
]

add_checked-IsManifest :
    (root name : Text) (s : Scan) (item : Item) (t : Scan)
    → IsManifest s
    → add_checked root name s item ≡ ok t
    → IsManifest t
unfolding add_checked
add_checked-IsManifest root name s item t h e =
    let (_, _, e1) = >>=-eq-ok (check_path name) _ e in
    let (added, kept, e2) = >>=-eq-ok (add_kind s name item item.kind) _ e1 in
    let (same, _) = check_count-eq-ok added (too_many root) t e2 in
    ok-IsManifest same (add_kind-IsManifest s name item item.kind added h kept)

add_item-IsManifest :
    (root top : Text) (s : Scan) (found : Result Message Item) (t : Scan)
    → IsManifest s
    → add_item root top s found ≡ ok t
    → IsManifest t
unfolding add_item
add_item-IsManifest root top s (err why) t h e = ok-IsManifest e (skip-IsManifest s why h)
add_item-IsManifest root top s (ok item) t h e = elim (Bool-cases (item.depth == 0)) [
  | inl at_root ↦ ok-IsManifest (rw at_root at e) h
  | inr below ↦
      let (name, _, e1) = >>=-eq-ok (item_name top item) _ (rw below at e) in
      add_checked-IsManifest root name s item t h e1
]

add_items-IsManifest :
    (root top : Text) (s : Scan) (is : List (Result Message Item)) (t : Scan)
    → IsManifest s
    → add_items root top s is ≡ ok t
    → IsManifest t
unfolding add_items
add_items-IsManifest root top s [] t h e = ok-IsManifest e h
add_items-IsManifest root top s (i ∷ is) t h e =
    let (next, first, e1) = >>=-eq-ok (add_item root top s i) _ e in
    add_items-IsManifest root top next is t (add_item-IsManifest root top s i next h first) e1

module _ (tree : FileTree) (follow : Bool) where
  add_top-IsManifest :
      (s : Scan) (path top : Text) (m : Metadata) (k : Kind) (t : Scan)
      → IsManifest s
      → add_top tree follow s path top m k ≡ ok t
      → IsManifest t
  unfolding add_top add_directory skip_special
  add_top-IsManifest s path top m directory t h e =
      add_items-IsManifest path top (push_source s (directory_source top)) (tree.walk path follow) t
        (push_directory-IsManifest s top h) e
  add_top-IsManifest s path top m regular t h e =
      ok-IsManifest e (push_file-IsManifest s top m path h)
  add_top-IsManifest s path top m symlink t h e = ok-IsManifest e (skip-IsManifest s _ h)
  add_top-IsManifest s path top m special t h e = ok-IsManifest e (skip-IsManifest s _ h)

  pair-IsManifest :
      {a b : Scan × List Text}
      → ◌≡◌ {A = Result Error (Scan × List Text)} (ok a) (ok b)
      → IsManifest a.0
      → IsManifest b.0
  pair-IsManifest {a} {b} e h = subst (λ p. IsManifest p.0) (value e) h
    where
      value : ◌≡◌ {A = Result Error (Scan × List Text)} (ok a) (ok b) → a ≡ b
      value x = cc

  add_named-IsManifest :
      (s : Scan) (path : Text) (used : List Text) (m : Metadata) (t : Scan × List Text)
      → IsManifest s
      → add_named tree follow s path used m ≡ ok t
      → IsManifest t.0
  unfolding add_named
  add_named-IsManifest s path used m t h e =
      let (name, _, e1) = >>=-eq-ok (top_level_name tree path) _ e in
      let (added, first, e2) =
        >>=-eq-ok (add_top tree follow s path (disambiguate name used).0 m m.kind) _ e1 in
      pair-IsManifest e2
        (add_top-IsManifest s path (disambiguate name used).0 m m.kind added h first)

  add_path-IsManifest :
      (path : Text) (s : Scan) (used : List Text) (m : Metadata) (t : Scan × List Text)
      → IsManifest s
      → add_path tree follow path (s, used) m ≡ ok t
      → IsManifest t.0
  unfolding add_path skip_link
  add_path-IsManifest path s used m t h e = elim (Bool-cases (is_symlink m.kind && not follow)) [
    | inl link ↦ pair-IsManifest (rw link at e) (skip-IsManifest s _ h)
    | inr on ↦
        let (target, _, e1) =
          >>=-eq-ok (target_of tree path m) (add_named tree follow s path used) (rw on at e) in
        add_named-IsManifest s path used target t h e1
  ]

  add_paths-IsManifest :
      (ps : List Text) (state t : Scan × List Text)
      → IsManifest state.0
      → add_paths tree follow ps state ≡ ok t
      → IsManifest t.0
  unfolding add_paths
  add_paths-IsManifest [] state t h e = pair-IsManifest e h
  add_paths-IsManifest (p ∷ ps) (s, used) t h e =
      let (m, _, e1) = >>=-eq-ok (with_path p (tree.symlink_metadata p)) _ e in
      let (next, first, e2) = >>=-eq-ok (add_path tree follow p (s, used) m) _ e1 in
      add_paths-IsManifest ps next t (add_path-IsManifest p s used m next h first) e2

  some_source : (ss : List Source) → is_nil ss ≡ false → 1 ≤ length ss
  some_source [] h = cc
  some_source (x ∷ ss) h = omega arith

  finish_scan-IsManifest :
      (paths : List Text) (found : Scan × List Text) (s : Scan)
      → IsManifest found.0
      → finish_scan paths found ≡ ok s
      → IsManifest s × (1 ≤ length s.sources) × (length s.sources ≤ max_entries)
  unfolding finish_scan
  finish_scan-IsManifest paths (found, used) s h e =
      let (full, e1) = fail_if-eq-ok (is_nil found.sources) _ _ e in
      let (checked, counted, e2) = >>=-eq-ok (check_count found (too_large found)) _ e1 in
      let (same, few) = check_count-eq-ok found (too_large found) checked counted in
      let kept = ok-IsManifest same h in
      let named : IsManifest (record checked { name_hint = name_hint checked paths }) = record {
        placed = kept.placed;
        counted = kept.counted;
      } in
      let sources = size checked s e2 in
      let before = size found checked same in
      (
        ok-IsManifest e2 named,
        omega (arith, some_source found.sources full, sources, before),
        omega (arith, few, sources, before),
      )
    where
      size_of : Result Error Scan → ℕ
      size_of (ok x) = length x.sources
      size_of (err x) = 0

      size :
          (a b : Scan) {hint : Option Text}
          → ◌≡◌ {A = Result Error Scan} (ok (record a { name_hint = hint })) (ok b)
          → length a.sources ≡ length b.sources
      size a b x = ap size_of x

  -- A scan that succeeds has between one and a million entries, as many as a receiver takes; each is a
  -- directory or a file with the place it is read from; and the total is the sum of the sizes.
  pub scan-IsManifest :
      (paths : List Text) (s : Scan)
      → scan tree follow paths ≡ ok s
      → IsManifest s × (1 ≤ length s.sources) × (length s.sources ≤ max_entries)
  unfolding scan sum_sizes
  scan-IsManifest paths s e =
      let (_, e1) = fail_if-eq-ok (is_nil paths) _ _ e in
      let (found, walked, e2) =
        >>=-eq-ok (add_paths tree follow paths (empty_scan, [])) (finish_scan paths) e1 in
      let start : IsManifest empty_scan = record { placed = tt; counted = refl } in
      finish_scan-IsManifest paths found s
        (add_paths-IsManifest paths (empty_scan, []) found start walked) e2
