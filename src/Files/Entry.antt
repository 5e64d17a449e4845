-- ===== src/Files/Entry.antt =====
-- internal/render/files.go, `Files`, and `birdyIncludes` of internal/web/apply.go: the include lines of the
-- entry file are read back.
use birdy.Common.{
  ℕ, zero, ◌-◌, Bool, true, false, not, ◌&&◌, ◌||◌, List, [], ◌∷◌, ◌++◌, none, some, Text, codes,
  ◌==◌, ◌≡◌, ◌≢◌, refl, ap, ◌∙◌, sym, arith, All, map, concat, length, length-append, append_assoc,
  is_empty, cut,
}
use birdy.Files.{
  Section, File, include_line, include_of, entry_header, include_dir, em_dash, include_file_name,
  base_dir, files,
}
use birdy.Apply.Disk.{base_name}
use birdy.Apply.Includes.{match_include, find_includes, own_include, own_includes, birdy_includes}

-- Whether a line begins behind a text, if one does or does not before it.
ends_line : Bool → Text → Bool
ends_line b [] = b
ends_line b (c ∷ s) = ends_line (c == 10) s

-- Each line that begins in the text is a comment.
is_quiet : Bool → Text → Bool
is_quiet b [] = true
is_quiet b (c ∷ s) = (not b || c == b'#') && is_quiet (c == 10) s

comment-none : (c : ℕ) (s : Text) → (c == b'#') ≡ true → match_include (c ∷ s) ≡ none
unfolding match_include
comment-none c s h = let e : c ≡ b'#' = ground (arith, h) in rw e refl

find_includes-quiet :
    (b : Bool) (h t : Text)
    → is_quiet b h ≡ true
    → find_includes zero b (h ++ t) ≡ find_includes zero (ends_line b h) t
unfolding find_includes is_quiet ends_line
find_includes-quiet b [] t q = refl
find_includes-quiet false (c ∷ h) t q = find_includes-quiet (c == 10) h t q
find_includes-quiet true (c ∷ h) t q =
    rw (find_includes, comment-none c (h ++ t) (ground (arith, q)))
      (find_includes-quiet (c == 10) h t (ground (arith, q)))

is_quiet-append :
    (b : Bool) (xs ys : Text)
    → is_quiet b xs ≡ true
    → is_quiet (ends_line b xs) ys ≡ true
    → is_quiet b (xs ++ ys) ≡ true
unfolding is_quiet ends_line
is_quiet-append b [] ys h k = k
is_quiet-append b (c ∷ xs) ys h k =
    ground (arith, h, is_quiet-append (c == 10) xs ys (ground (arith, h)) k)

ends_line-append :
    (b : Bool) (xs ys : Text) → ends_line b (xs ++ ys) ≡ ends_line (ends_line b xs) ys
unfolding ends_line
ends_line-append b [] ys = refl
ends_line-append b (c ∷ xs) ys = ends_line-append (c == 10) xs ys

-- A text on one line.
abbrev pub IsOneLine : Text → Type 0
IsOneLine s = All (λ c. (c == 10) ≡ false) s

one_line-quiet : (s : Text) → IsOneLine s → (is_quiet false s ≡ true) × (ends_line false s ≡ false)
unfolding is_quiet ends_line
one_line-quiet [] h = (refl, refl)
one_line-quiet (c ∷ s) (h, hs) = rw h (one_line-quiet s hs)

-- What is passed behind a match.
find_includes-pass :
    (b : Bool) (xs t : Text)
    → find_includes (length xs) b (xs ++ t) ≡ find_includes zero (ends_line b xs) t
unfolding find_includes ends_line
find_includes-pass b [] t = refl
find_includes-pass b (c ∷ xs) t = find_includes-pass (c == 10) xs t

abbrev NoQuote : Text → Type 0
NoQuote s = All (λ c. (c == b'"') ≡ false) s

cut-quote : (p t : Text) → NoQuote p → cut b'"' (p ++ b'"' ∷ t) ≡ (p, some t)
unfolding cut
cut-quote [] t h = refl
cut-quote (c ∷ p) t (h, hs) = rw (h, cut-quote p t hs) refl

abbrev line_of : Text → Text → Text
line_of p t = codes "include \"" ++ (p ++ (b'"' ∷ b';' ∷ 10 ∷ t))

match_include-line :
    (p t : Text) → NoQuote p → is_empty p ≡ false → match_include (line_of p t) ≡ some (p, 10 ∷ t)
unfolding match_include
match_include-line p t h e = rw (cut-quote p (b';' ∷ 10 ∷ t) h, e) refl

match_include-blank :
    (p t : Text)
    → NoQuote p
    → is_empty p ≡ false
    → match_include (10 ∷ line_of p t) ≡ some (p, 10 ∷ t)
unfolding match_include
match_include-blank p t h e = rw (cut-quote p (b';' ∷ 10 ∷ t) h, e) refl

-- One match, and the rest of its line.
find_includes-match :
    (c : ℕ) (xs t p : Text)
    → match_include (c ∷ (xs ++ 10 ∷ t)) ≡ some (p, 10 ∷ t)
    → ends_line (c == 10) xs ≡ false
    → find_includes zero true (c ∷ (xs ++ 10 ∷ t)) ≡ p ∷ find_includes zero true t
unfolding find_includes
find_includes-match c xs t p h e =
    let same : length (xs ++ 10 ∷ t) - length (10 ∷ t) ≡ length xs =
      omega (arith, length-append xs (10 ∷ t)) in
    rw (find_includes, h)
      (ap (λ l. p ∷ l)
        (ap (λ n. find_includes n (c == 10) (xs ++ 10 ∷ t)) same
          ∙ find_includes-pass (c == 10) xs (10 ∷ t)
          ∙ ap (λ b. find_includes zero b (10 ∷ t)) e))

-- A line behind its first byte, without the line feed.
abbrev line_rest : Text → Text
line_rest p = codes "nclude \"" ++ (p ++ b'"' ∷ b';' ∷ [])

line_of-rest : (p t : Text) → line_of p t ≡ b'i' ∷ (line_rest p ++ 10 ∷ t)
line_of-rest p t =
    ap (λ l. codes "include \"" ++ l) (sym (append_assoc p (b'"' ∷ b';' ∷ []) (10 ∷ t)))

ends_line-rest : (b : Bool) (p : Text) → ends_line b (line_rest p) ≡ false
unfolding ends_line
ends_line-rest b p = ends_line-append false p (b'"' ∷ b';' ∷ [])

module _ (p t : Text) (h : NoQuote p) (e : is_empty p ≡ false) where
  find_includes-line : find_includes zero true (line_of p t) ≡ p ∷ find_includes zero true t
  find_includes-line =
      ap (find_includes zero true) (line_of-rest p t)
      ∙ find_includes-match b'i' (line_rest p) t p
          (ap match_include (sym (line_of-rest p t)) ∙ match_include-line p t h e)
          (ends_line-rest _ p)

  find_includes-blank : find_includes zero true (10 ∷ line_of p t) ≡ p ∷ find_includes zero true t
  unfolding ends_line
  find_includes-blank =
      ap (λ l. find_includes zero true (10 ∷ l)) (line_of-rest p t)
      ∙ find_includes-match 10 (b'i' ∷ line_rest p) t p
          (ap (λ l. match_include (10 ∷ l)) (sym (line_of-rest p t)) ∙ match_include-blank p t h e)
          (ends_line-append false p (b'"' ∷ b';' ∷ []))

abbrev lines : List Text → Text
lines [] = []
lines (p ∷ ps) = line_of p (lines ps)

abbrev IsPath : Text → Type 0
IsPath p = NoQuote p × (is_empty p ≡ false)

find_includes-lines : (ps : List Text) → All IsPath ps → find_includes zero true (lines ps) ≡ ps
unfolding find_includes
find_includes-lines [] h = refl
find_includes-lines (p ∷ ps) ((q, e), hs) =
    find_includes-line p (lines ps) q e ∙ ap (λ l. p ∷ l) (find_includes-lines ps hs)

-- The path of a section's include file, in the directory `base`.
abbrev pub path_of : Text → Section → Text
path_of base s = base ++ codes "/" ++ include_file_name s.path

include_line-of :
    (base name t : Text) → include_line base name ++ t ≡ line_of (base ++ codes "/" ++ name) t
include_line-of base name t =
    ap (λ l. codes "include \"" ++ l) (append_assoc (base ++ codes "/" ++ name) (codes "\";\n") t)

concat-lines :
    (base : Text) (secs : List Section)
    → concat (map (λ (s : Section). include_line base (include_file_name s.path)) secs)
      ≡ lines (map (path_of base) secs)
concat-lines base [] = refl
concat-lines base (s ∷ secs) =
    include_line-of base (include_file_name s.path) _
    ∙ ap (line_of (path_of base s)) (concat-lines base secs)

append-six :
    (v b i c m d t : Text)
    → (v ++ b ++ i ++ c ++ m ++ d) ++ t ≡ v ++ (b ++ (i ++ (c ++ (m ++ (d ++ t)))))
append-six v b i c m d t =
    append_assoc (v ++ b ++ i ++ c ++ m) d t
    ∙ append_assoc (v ++ b ++ i ++ c) m (d ++ t)
    ∙ append_assoc (v ++ b ++ i) c (m ++ (d ++ t))
    ∙ append_assoc (v ++ b) i (c ++ (m ++ (d ++ t)))
    ∙ append_assoc v b (i ++ (c ++ (m ++ (d ++ t))))

-- The header before and behind the version, up to its last, blank line.
abbrev before_version : Text
before_version = codes "#\n# bird.conf generated by birdy "

abbrev after_version : Text
after_version =
    codes "\n#\n# birdy owns this file and the "
    ++ include_dir
    ++ codes
        "/ directory beside it, and rewrites them in\n# full from its database on every apply. This file only pulls in the generated\n# sections below; change the model in the birdy UI, not the files "
    ++ em_dash
    ++ codes " hand edits\n# are lost on the next apply.\n#\n"

entry_header-parts :
    (version t : Text)
    → entry_header version ++ t ≡ before_version ++ (version ++ (after_version ++ 10 ∷ t))
unfolding entry_header
entry_header-parts version t =
    ap (λ l. before_version ++ l)
      (append-six version (codes "\n#\n# birdy owns this file and the ") include_dir
        (codes
          "/ directory beside it, and rewrites them in\n# full from its database on every apply. This file only pulls in the generated\n# sections below; change the model in the birdy UI, not the files ")
        em_dash (codes " hand edits\n# are lost on the next apply.\n#\n\n") t)

find_includes-header :
    (version t : Text)
    → IsOneLine version
    → find_includes zero true (entry_header version ++ t) ≡ find_includes zero true (10 ∷ t)
unfolding is_quiet ends_line
find_includes-header version t h =
    ap (find_includes zero true) (entry_header-parts version t)
    ∙ find_includes-quiet true before_version _ refl
    ∙ find_includes-quiet false version _ ((one_line-quiet version h).0)
    ∙ ap (λ b. find_includes zero b (after_version ++ 10 ∷ t)) ((one_line-quiet version h).1)
    ∙ find_includes-quiet false after_version (10 ∷ t) refl

find_includes-entry :
    (version base : Text) (s : Section) (secs : List Section)
    → IsOneLine version
    → All (λ s. IsPath (path_of base s)) (s ∷ secs)
    → find_includes zero true (
        entry_header version
        ++ concat (map (λ (s : Section). include_line base (include_file_name s.path)) (s ∷ secs)))
      ≡ map (path_of base) (s ∷ secs)
find_includes-entry version base s secs h ((q, e), hs) =
    find_includes-header version _ h
    ∙ ap (λ l. find_includes zero true (10 ∷ l)) (concat-lines base (s ∷ secs))
    ∙ find_includes-blank (path_of base s) (lines (map (path_of base) secs)) q e
    ∙ ap (λ l. path_of base s ∷ l) (find_includes-lines (map (path_of base) secs) (All-of secs hs))
  where
    All-of :
        (ss : List Section)
        → All (λ s. IsPath (path_of base s)) ss
        → All IsPath (map (path_of base) ss)
    All-of [] k = tt
    All-of (x ∷ ss) (k, ks) = (k, All-of ss ks)

-- The path of a section's include line is one of birdy's own, with the name of the section's file.
abbrev pub IsOwn : Text → Section → Type 0
IsOwn dir s =
    IsPath (path_of dir s)
    × (own_include dir (path_of dir s) ≡ some (base_name (include_file_name s.path)))

own_includes-Own :
    (dir : Text) (secs : List Section)
    → All (IsOwn dir) secs
    → own_includes dir (map (path_of dir) secs)
      ≡ map (λ (f : File). base_name f.name) (map include_of secs)
unfolding own_includes
own_includes-Own dir [] h = refl
own_includes-Own dir (s ∷ secs) (h, hs) =
    rw (own_includes, h.1)
      (ap (λ l. base_name (include_file_name s.path) ∷ l) (own_includes-Own dir secs hs))

-- The includes that birdy reads back from the entry file that it writes are the files of the sections, in
-- their order.
pub birdy_includes-files :
    (version dir : Text) (s : Section) (secs : List Section)
    → IsOneLine version
    → base_dir dir ≡ dir
    → All (IsOwn dir) (s ∷ secs)
    → let set = files (s ∷ secs) version dir in
      birdy_includes dir set.entry ≡ map (λ (f : File). base_name f.name) set.includes
unfolding birdy_includes files
birdy_includes-files version dir s secs h plain own =
    ap
      (λ base. own_includes dir (
        find_includes zero true (
          entry_header version
          ++ concat
              (map (λ (s : Section). include_line base (include_file_name s.path)) (s ∷ secs)))))
      plain
    ∙ ap (own_includes dir) (find_includes-entry version dir s secs h (paths (s ∷ secs) own))
    ∙ own_includes-Own dir (s ∷ secs) own
  where
    paths : (ss : List Section) → All (IsOwn dir) ss → All (λ s. IsPath (path_of dir s)) ss
    paths [] k = tt
    paths (x ∷ ss) (k, ks) = (k.0, paths ss ks)

pub files-some :
    (version dir : Text) (s : Section) (secs : List Section)
    → (files (s ∷ secs) version dir).includes ≢ []
unfolding files
files-some version dir s secs e = cc
