-- ===== src/Apply/Dirs.antt =====
-- Laws of the directories of World: what a read finds after a write or a removal.
use birdy.Common.{
  Bool, false, ◌||◌, List, [], ◌∷◌, Option, none, some, Text, text_eq, text_eq_iff, if◌then◌else◌,
  ◌≡◌, refl, ◌∙◌, arith, inl, inr, Bool-cases,
}
use birdy.Apply.World.{Dir, look, put, remove}

pub look-put :
    (k j v : Text) (m : Dir) → look j (put k v m) ≡ (if text_eq k j then some v else look j m)
unfolding look put
look-put k j v [] = refl
look-put k j v ((i, u) ∷ m) =
    ground (arith, look-put k j v m, text_eq_iff i k, text_eq_iff i j, text_eq_iff k j)

pub look-remove :
    (k j : Text) (m : Dir) → look j (remove k m) ≡ (if text_eq k j then none else look j m)
unfolding look remove
look-remove k j [] = ground arith
look-remove k j ((i, u) ∷ m) =
    ground (arith, look-remove k j m, text_eq_iff i k, text_eq_iff i j, text_eq_iff k j)

-- The names of a directory.
abbrev pub names : Dir → List Text
names [] = []
names ((n, b) ∷ m) = n ∷ names m

unfoldable pub has : Text → Dir → Bool
has n [] = false
has n ((j, b) ∷ m) = text_eq j n || has n m

pub look-has : (n : Text) (m : Dir) → has n m ≡ false → look n m ≡ none
unfolding look has
look-has n [] h = refl
look-has n ((j, b) ∷ m) h = ground (arith, look-has n m)

-- No name stands twice, as in any directory.
abbrev pub IsUnique : Dir → Type 0
IsUnique [] = Unit
IsUnique ((n, b) ∷ m) = (has n m ≡ false) × IsUnique m

has-put : (k j v : Text) (m : Dir) → has j (put k v m) ≡ (text_eq k j || has j m)
unfolding has put
has-put k j v [] = refl
has-put k j v ((i, u) ∷ m) =
    ground (arith, has-put k j v m, text_eq_iff i k, text_eq_iff i j, text_eq_iff k j)

put-IsUnique : (k v : Text) (m : Dir) → IsUnique m → IsUnique (put k v m)
unfolding put has
put-IsUnique k v [] h = (refl, tt)
put-IsUnique k v ((i, u) ∷ m) h = elim (Bool-cases (text_eq i k)) [
  | inl e ↦ rw e (h.0, h.1)
  | inr e ↦
      rw e
        (ground (arith, has-put k i v m, text_eq_iff i k, text_eq_iff k i), put-IsUnique k v m h.1)
]

-- The entries of `m` over those of `d`.
abbrev pub over : Option Text → Option Text → Option Text
over none d = d
over (some b) d = some b

-- Writing the entries of `m` one after another.
unfoldable pub put_all : Dir → Dir → Dir
put_all [] d = d
put_all ((n, b) ∷ m) d = put_all m (put n b d)

pub look-put_all :
    (n : Text) (m d : Dir) → IsUnique m → look n (put_all m d) ≡ over (look n m) (look n d)
unfolding put_all look
look-put_all n [] d h = refl
look-put_all n ((j, b) ∷ m) d h = elim (Bool-cases (text_eq j n)) [
  | inl e ↦ rw e (
      look-put_all n m (put j b d) h.1
      ∙ ground (arith, look-put j n b d, look-has j m, text_eq_iff j n))
  | inr e ↦ rw e (look-put_all n m (put j b d) h.1 ∙ ground (arith, look-put j n b d))
]

pub put_all-IsUnique : (m d : Dir) → IsUnique d → IsUnique (put_all m d)
unfolding put_all
put_all-IsUnique [] d h = h
put_all-IsUnique ((n, b) ∷ m) d h = put_all-IsUnique m (put n b d) (put-IsUnique n b d h)
