-- ===== src/Apply/Includes.antt =====
-- internal/web/apply.go, `birdyIncludes`: the include lines of a bird.conf that point into birdy's own
-- directory, by the names of their files, and Go's functions on paths and on the expression `includeRe`
-- as far as this reads them, on a system whose paths are separated by `/`.
use birdy.Common.{
  ℕ, zero, suc, ◌-◌, Bool, true, false, not, ◌&&◌, ◌||◌, List, [], ◌∷◌, ◌++◌, Option, none, some,
  Text, text_eq, codes, if◌then◌else◌, ◌==◌, length, split_on, cut_prefix, cut, is_empty,
  trim_left_if,
}

-- `\s`
abbrev pub is_blank : ℕ → Bool
is_blank c = c == 32 || c == 9 || c == 10 || c == 12 || c == 13

-- `"\s*;` behind the path that a quote has ended.
abbrev after_quote : Text → Text → Option (Text × Text)
after_quote path [] = none
after_quote path (c ∷ s) = if c == b';' && not (is_empty path) then some (path, s) else none

abbrev after_path : Text × Option Text → Option (Text × Text)
after_path (path, none) = none
after_path (path, some s) = after_quote path (trim_left_if is_blank s)

abbrev after_space : Text → Option (Text × Text)
after_space [] = none
after_space (c ∷ s) = if c == b'"' then after_path (cut b'"' s) else none

abbrev after_word : Option Text → Option (Text × Text)
after_word none = none
after_word (some []) = none
after_word (some (c ∷ s)) = if is_blank c then after_space (trim_left_if is_blank s) else none

-- A match of `includeRe` at the beginning of a line: the path, and the text behind the match.
unfoldable pub match_include : Text → Option (Text × Text)
unfolding trim_left_if cut_prefix cut
match_include s = after_word (cut_prefix (trim_left_if is_blank s) (codes "include"))

-- `FindAllStringSubmatch` on the text behind a match, of which so many bytes are left to pass; the flag
-- says whether a line begins.
unfoldable pub find_includes : ℕ → Bool → Text → List Text
unfolding match_include
find_includes n at_line [] = []
find_includes (suc n) at_line (c ∷ s) = find_includes n (c == 10) s
find_includes zero at_line (c ∷ s) = elim (if at_line then match_include (c ∷ s) else none) [
  | none ↦ find_includes 0 (c == 10) s
  | some m ↦ m.0 ∷ find_includes (length s - length m.1) (c == 10) s
]

-- The elements of a path, cleaned; the stack has the last one first.
clean_parts : Bool → List Text → List Text → List Text
clean_parts rooted stack [] = stack
clean_parts rooted stack (p ∷ ps) =
    clean_parts rooted
      (if is_empty p || text_eq p (codes ".")
        then stack
        else if text_eq p (codes "..")
        then up stack
        else p ∷ stack)
      ps
  where
    up : List Text → List Text
    up [] = if rooted then [] else codes ".." ∷ []
    up (q ∷ qs) = if text_eq q (codes "..") then codes ".." ∷ q ∷ qs else qs

abbrev is_rooted : Text → Bool
is_rooted [] = false
is_rooted (c ∷ s) = c == b'/'

-- A cleaned path: whether it is rooted, and its elements, the last one first.
unfoldable pub clean : Text → Bool × List Text
unfolding clean_parts split_on text_eq
clean path = (is_rooted path, clean_parts (is_rooted path) [] (split_on b'/' path))

-- Equality of two lists of names.
same_names : List Text → List Text → Bool
same_names [] [] = true
same_names (x ∷ xs) (y ∷ ys) = text_eq x y && same_names xs ys
same_names _ _ = false

bool_eq : Bool → Bool → Bool
bool_eq true b = b
bool_eq false b = not b

-- The file's name, if its directory is the one wanted (`filepath.Dir(p) == want`).
abbrev name_in : Bool × List Text → Bool × List Text → Option Text
name_in (rooted, dir) (r, []) = none
name_in (rooted, dir) (r, n ∷ ns) = if bool_eq rooted r && same_names dir ns then some n else none

unfoldable pub own_include : Text → Text → Option Text
unfolding clean same_names bool_eq
own_include dir path = name_in (clean (dir ++ codes "/birdy.d")) (clean path)

unfoldable pub own_includes : Text → List Text → List Text
unfolding own_include
own_includes dir [] = []
own_includes dir (p ∷ ps) =
    let rest = own_includes dir ps in elim (own_include dir p) [ none ↦ rest | some n ↦ n ∷ rest ]

-- `birdyIncludes`
unfoldable pub birdy_includes : Text → Text → List Text
unfolding own_includes find_includes
birdy_includes dir conf = own_includes dir (find_includes 0 true conf)
