-- ===== src/Diff/Attribution.antt =====
-- internal/render/diff.go, `SectionDiff`: how many lines the changes of the sections add and remove.
use birdy.Common.{
  pos, ℕ, zero, suc, ◌+◌, ◌-◌, ◌≤◌, ◌<◌, ◌≡◌, refl, ap, inl, inr, Bool, List, [], ◌∷◌, ◌++◌, arith,
  ltb, length, get_or, set, replicate, Text, All, Bool-cases,
}
use birdy.Files.{Section}
use birdy.Diff.{Op, Edit}
use birdy.Diff.Hunks.{is_ins, is_del}
use birdy.Diff.Count.{count_op, stat-hunks, add_if}
use birdy.Diff.Sections.{
  FileChange, line_owners, pad_owners, owner_of, charge, attribute, file_change, file_changes,
  section_script, section_diff,
}

abbrev Below : ℕ → List ℕ → Type 0
Below n = All (λ o. o < n)

Below-append : (n : ℕ) (xs ys : List ℕ) → Below n xs → Below n ys → Below n (xs ++ ys)
Below-append n [] ys p q = q
Below-append n (x ∷ xs) ys p q = (p.0, Below-append n xs ys p.1 q)

Below-replicate : (n k o : ℕ) → o < n → Below n (replicate k o)
Below-replicate n zero o h = tt
Below-replicate n (suc k) o h = (h, Below-replicate n k o h)

line_owners-Below :
    (n si : ℕ) (secs : List Section) → si + length secs ≤ n → Below n (line_owners si secs)
unfolding line_owners
line_owners-Below n si [] h = tt
line_owners-Below n si (s ∷ secs) h =
    Below-append n _ (line_owners (si + 1) secs) (Below-replicate n _ si (omega arith))
      (line_owners-Below n (si + 1) secs (omega arith))

pad_owners-Below :
    (n lines : ℕ) (owners : List ℕ) → 0 < n → Below n owners → Below n (pad_owners n lines owners)
unfolding pad_owners
pad_owners-Below n lines owners h p = elim (Bool-cases (ltb 0 n)) [
  | inl t ↦ rw t (Below-append n owners _ p (Below-replicate n _ (n - 1) (omega arith)))
  | inr f ↦ rw f p
]

get_or-Below : (n : ℕ) (owners : List ℕ) (i : ℕ) → 0 < n → Below n owners → get_or owners i 0 < n
get_or-Below n [] i h p = h
get_or-Below n (o ∷ owners) zero h p = p.0
get_or-Below n (o ∷ owners) (suc i) h p = get_or-Below n owners i h p.1

owner_of-lt :
    (n : ℕ) (owners : List ℕ) (cur : ℕ) (e : Edit)
    → cur < n
    → Below n owners
    → owner_of owners cur e < n
unfolding owner_of
owner_of-lt n owners cur e h p =
    ground (arith, get_or-Below n owners (e.new_line - 1) (omega arith) p)

-- The edits of all slices whose operation passes a test.
total : (Op → Bool) → List (List Edit) → ℕ
unfolding count_op
total p [] = 0
total p (seg ∷ segs) = count_op p seg + total p segs

count_op-snoc :
    (p : Op → Bool) (seg : List Edit) (e : Edit)
    → count_op p (seg ++ e ∷ []) ≡ add_if (p e.op) (count_op p seg)
unfolding count_op
count_op-snoc p [] e = refl
count_op-snoc p (d ∷ seg) e = ground (arith, count_op-snoc p seg e)

total-set :
    (p : Op → Bool) (segs : List (List Edit)) (si : ℕ) (e : Edit)
    → si < length segs
    → total p (set segs si (get_or segs si [] ++ e ∷ [])) ≡ add_if (p e.op) (total p segs)
unfolding total
total-set p [] si e h = absurd (omega arith)
total-set p (seg ∷ segs) zero e h = ground (arith, count_op-snoc p seg e)
total-set p (seg ∷ segs) (suc si) e h = ground (arith, total-set p segs si e)

length-set_segs :
    (segs : List (List Edit)) (si : ℕ) (v : List Edit) → length (set segs si v) ≡ length segs
length-set_segs [] si v = refl
length-set_segs (x ∷ xs) zero v = refl
length-set_segs (x ∷ xs) (suc i) v = ap suc (length-set_segs xs i v)

module _ (p : Op → Bool) where
  total-charge :
      (segs : List (List Edit)) (si : ℕ) (e : Edit)
      → si < length segs
      → (total p (charge segs si e) ≡ add_if (p e.op) (total p segs))
        × (length (charge segs si e) ≡ length segs)
  unfolding charge
  total-charge segs si e h =
      ground (arith, total-set p segs si e h, length-set_segs segs si (get_or segs si [] ++ e ∷ []))

  total-attribute :
      (n : ℕ) (owners : List ℕ) (cur : ℕ) (segs : List (List Edit)) (es : List Edit)
      → cur < n
      → length segs ≡ n
      → Below n owners
      → (total p (attribute owners cur segs es) ≡ total p segs + count_op p es)
        × (length (attribute owners cur segs es) ≡ n)
  unfolding attribute count_op
  total-attribute n owners cur segs [] h e b = (omega arith, e)
  total-attribute n owners cur segs (d ∷ es) h e b =
      let lt = owner_of-lt n owners cur d h b in
      let one = total-charge segs (owner_of owners cur d) d (omega arith) in
      let rest =
        total-attribute n owners (owner_of owners cur d) (charge segs (owner_of owners cur d) d) es
          lt (omega arith) b in
      (ground arith, ground arith)

  total-replicate : (n : ℕ) → total p (replicate n []) ≡ 0
  unfolding total count_op
  total-replicate zero = refl
  total-replicate (suc n) = omega (arith, total-replicate n)

length-replicate : (n : ℕ) → length (replicate {A = List Edit} n []) ≡ n
length-replicate zero = refl
length-replicate (suc n) = ap suc (length-replicate n)

-- The lines that all the file changes add, and those that they remove.
pub total_added : List FileChange → ℕ
total_added [] = 0
total_added (c ∷ cs) = c.added + total_added cs

pub total_removed : List FileChange → ℕ
total_removed [] = 0
total_removed (c ∷ cs) = c.removed + total_removed cs

file_changes-total :
    (context : ℕ) (secs : List Section) (segs : List (List Edit))
    → length segs ≡ length secs
    → (total_added (file_changes (pos context) secs segs) ≡ total is_ins segs)
      × (total_removed (file_changes (pos context) secs segs) ≡ total is_del segs)
unfolding file_changes file_change total_added total_removed total
file_changes-total context [] [] h = (refl, refl)
file_changes-total context [] (seg ∷ segs) h = absurd (omega arith)
file_changes-total context (s ∷ secs) [] h = absurd (omega arith)
file_changes-total context (s ∷ secs) (seg ∷ segs) h =
    ground (arith, stat-hunks seg context, file_changes-total context secs segs)

attributed-total :
    (context : ℕ) (secs : List Section) (owners : List ℕ) (es : List Edit)
    → 0 < length secs
    → Below (length secs) owners
    → let segs = attribute owners 0 (replicate (length secs) []) es in
      (total_added (file_changes (pos context) secs segs) ≡ count_op is_ins es)
      × (total_removed (file_changes (pos context) secs segs) ≡ count_op is_del es)
attributed-total context secs owners es h b =
    let n = length secs in
    let segs = attribute owners 0 (replicate n []) es in
    let plus = total-attribute is_ins n owners 0 (replicate n []) es h (length-replicate n) b in
    let minus = total-attribute is_del n owners 0 (replicate n []) es h (length-replicate n) b in
    let sums = file_changes-total context secs segs plus.1 in
    (
      omega (arith, sums.0, plus.0, total-replicate is_ins n),
      omega (arith, sums.1, minus.0, total-replicate is_del n),
    )

-- With at least one section and a context that is not negative, the changes of the sections add and
-- remove, taken together, as many lines as the script of the whole config inserts and deletes.
pub section_diff-total :
    (old : Text) (secs : List Section) (context : ℕ)
    → 0 < length secs
    → (total_added (section_diff old secs (pos context))
        ≡ count_op is_ins (section_script old secs))
      × (total_removed (section_diff old secs (pos context))
          ≡ count_op is_del (section_script old secs))
unfolding section_diff
section_diff-total old secs context h =
    attributed-total context secs _ (section_script old secs) h
      (pad_owners-Below (length secs) _ _ h (line_owners-Below (length secs) 0 secs (omega arith)))
