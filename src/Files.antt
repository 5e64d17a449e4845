-- ===== src/Files.antt =====
-- internal/render/files.go: how the rendered sections are laid out as a `bird.conf` and one include
-- file for each section. The sections come in as a list, which `Sections` of render.go makes.
use birdy.Common.{
  ℕ, List, [], ◌∷◌, ◌++◌, ◌==◌, if◌then◌else◌, Text, text_eq, codes, concat, map, Option, none,
  some,
}
pub mod Entry
pub mod Logical

pub record Section : Type 0 where
  pub path : Text
  pub title : Text
  pub body : Text

pub record File : Type 0 where
  pub name : Text
  pub body : Text

pub record FileSet : Type 0 where
  pub entry : Text
  pub includes : List File

-- `FileSet.Logical`
unfoldable pub logical : FileSet → Text
logical set = concat (map (λ (f : File). f.body) set.includes)

abbrev include_dir : Text
include_dir = codes "birdy.d"

abbrev assoc : Text → List (Text × Text) → Option Text
assoc k [] = none
assoc k ((j, v) ∷ m) = if text_eq j k then some v else assoc k m

-- `groupNum`
abbrev group_num : List (Text × Text)
group_num =
    (codes "header", codes "00")
    ∷ (codes "globals", codes "01")
    ∷ (codes "communities", codes "02")
    ∷ (codes "sets", codes "03")
    ∷ (codes "bogons", codes "04")
    ∷ (codes "rpki", codes "05")
    ∷ (codes "protocols", codes "06")
    ∷ (codes "static", codes "07")
    ∷ (codes "policies", codes "08")
    ∷ (codes "templates", codes "08")
    ∷ (codes "peers", codes "09")
    ∷ (codes "raw", codes "10")
    ∷ []

-- The text before the first "/", or all of it.
group_of : Text → Text
group_of [] = []
group_of (c ∷ s) = let rest = group_of s in if c == b'/' then [] else c ∷ rest

abbrev slug_byte : ℕ → ℕ
slug_byte c = if c == b'/' then b'-' else c

abbrev num_of : Option Text → Text
num_of none = codes "99"
num_of (some num) = num

-- `includeFileName`
unfoldable pub include_file_name : Text → Text
unfolding group_of text_eq
include_file_name path =
    include_dir
    ++ codes "/"
    ++ num_of (assoc (group_of path) group_num)
    ++ codes "-"
    ++ map slug_byte path
    ++ codes ".conf"

-- `strings.TrimRight(s, "/")`
trim_slashes : Text → Text
trim_slashes [] = []
trim_slashes (c ∷ s) =
    let rest = trim_slashes s in
    elim rest [ [] ↦ if c == b'/' then [] else c ∷ [] | d ∷ r ↦ c ∷ d ∷ r ]

abbrev forward : ℕ → ℕ
forward c = if c == 92 then b'/' else c

abbrev dot_if_empty : Text → Text
dot_if_empty [] = codes "."
dot_if_empty (c ∷ s) = c ∷ s

unfoldable pub base_dir : Text → Text
unfolding trim_slashes
base_dir dir = dot_if_empty (trim_slashes (map forward dir))

abbrev em_dash : Text
em_dash = 226 ∷ 128 ∷ 148 ∷ []

-- `writeEntryHeader`: the banner, up to the version and behind it.
entry_header : Text → Text
entry_header version =
    codes "#\n# bird.conf generated by birdy "
    ++ version
    ++ codes "\n#\n# birdy owns this file and the "
    ++ include_dir
    ++ codes
        "/ directory beside it, and rewrites them in\n# full from its database on every apply. This file only pulls in the generated\n# sections below; change the model in the birdy UI, not the files "
    ++ em_dash
    ++ codes " hand edits\n# are lost on the next apply.\n#\n\n"

abbrev include_line : Text → Text → Text
include_line base name = codes "include \"" ++ base ++ codes "/" ++ name ++ codes "\";\n"

abbrev pub include_of : Section → File
include_of s = record { name = include_file_name s.path; body = s.body }

-- `Files`
unfoldable pub files : List Section → Text → Text → FileSet
unfolding base_dir entry_header include_file_name
files secs version dir = record {
  entry =
      entry_header version
      ++ concat
          (map (λ (s : Section). include_line (base_dir dir) (include_file_name s.path)) secs);
  includes = map include_of secs;
}
