-- ===== src/Files/Logical.antt =====
-- internal/render/files.go, `Files` and `Logical`: the bodies of the sections and of the files.
use birdy.Common.{List, [], ◌∷◌, ◌++◌, ◌≡◌, refl, ap, Text, map, concat}
use birdy.Files.{Section, File, logical, files, include_of}

bodies :
    (secs : List Section)
    → concat (map (λ (f : File). f.body) (map include_of secs))
      ≡ concat (map (λ (s : Section). s.body) secs)
bodies [] = refl
bodies (s ∷ secs) = ap (λ t. s.body ++ t) (bodies secs)

-- The logical config of the files that sections are split into is the concatenation of the sections'
-- bodies, whatever the version and the directory.
pub logical-files :
    (secs : List Section) (version dir : Text)
    → logical (files secs version dir) ≡ concat (map (λ (s : Section). s.body) secs)
unfolding logical files
logical-files secs version dir = bodies secs
