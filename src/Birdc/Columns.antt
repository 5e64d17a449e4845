-- ===== src/Birdc/Columns.antt =====
-- internal/birdc/parser.go, `parseProtocolRow`: a row is read by its words, however wide its columns are.
use birdy.Common.{
  take, drop, Bool, Bool-cases, inl, inr, ℕ, true, false, List, [], ◌∷◌, ◌++◌, some, Text, ◌≡◌,
  refl, ap, ◌∙◌, sym, All, map, is_space, fields_from, nonempty, fields, join, append-nil,
  cons_first,
}
use birdy.Birdc.Rows.{since_fields, is_date, is_time, row_of, parse_protocol_row}

abbrev NotSpace : ℕ → Type 0
NotSpace c = is_space c ≡ false

abbrev IsSpace : ℕ → Type 0
IsSpace c = is_space c ≡ true

-- At least one byte, none of them a space.
abbrev pub IsWord : Text → Type 0
IsWord [] = ⊥
IsWord (c ∷ s) = NotSpace c × All NotSpace s

-- At least one space, and nothing else.
abbrev IsGap : Text → Type 0
IsGap [] = ⊥
IsGap (c ∷ s) = IsSpace c × All IsSpace s

-- A word, and others with the gap before each.
pub spread : Text → List (Text × Text) → Text → Text
spread w [] tail = w ++ tail
spread w ((gap, v) ∷ ws) tail = w ++ (gap ++ spread v ws tail)

abbrev pub AreApart : List (Text × Text) → Type 0
AreApart ws = All (λ (p : Text × Text). IsGap (p.0) × IsWord (p.1)) ws

abbrev prepend : Text → List Text → List Text
prepend w [] = w ∷ []
prepend w (p ∷ ps) = (w ++ p) ∷ ps

cons_first-prepend :
    (c : ℕ) (w : Text) (ps : List Text) → cons_first c (prepend w ps) ≡ prepend (c ∷ w) ps
cons_first-prepend c w [] = refl
cons_first-prepend c w (p ∷ ps) = refl

prepend-cons_first : (c : ℕ) (ps : List Text) → prepend [] (cons_first c ps) ≡ cons_first c ps
prepend-cons_first c [] = refl
prepend-cons_first c (p ∷ ps) = refl

prepend-fields_from : (t : Text) → prepend [] (fields_from t) ≡ fields_from t
unfolding fields_from
prepend-fields_from [] = refl
prepend-fields_from (c ∷ t) = elim (Bool-cases (is_space c)) [
  | inl e ↦ rw e refl
  | inr e ↦ rw e (prepend-cons_first c (fields_from t))
]

IsWord-All : (w : Text) → IsWord w → All NotSpace w
IsWord-All [] h = tt
IsWord-All (c ∷ w) h = h

fields_from-word : (w t : Text) → All NotSpace w → fields_from (w ++ t) ≡ prepend w (fields_from t)
unfolding fields_from
fields_from-word [] t h = sym (prepend-fields_from t)
fields_from-word (c ∷ w) t h =
    rw (h.0)
      (ap (cons_first c) (fields_from-word w t (h.1)) ∙ cons_first-prepend c w (fields_from t))

fields_from-gap :
    (g t : Text) → All IsSpace g → nonempty (fields_from (g ++ t)) ≡ nonempty (fields_from t)
unfolding fields_from
fields_from-gap [] t h = refl
fields_from-gap (c ∷ g) t h = rw (h.0) (fields_from-gap g t (h.1))

nonempty-prepend : (w : Text) (ps : List Text) → IsWord w → nonempty (prepend w ([] ∷ ps)) ≡ w ∷ ps
nonempty-prepend [] ps h = absurd h
nonempty-prepend (c ∷ w) ps h = ap (λ s. (c ∷ s) ∷ ps) (append-nil w)

gap_first : (g t : Text) → IsGap g → fields_from (g ++ t) ≡ [] ∷ nonempty (fields_from t)
unfolding fields_from
gap_first [] t h = absurd h
gap_first (c ∷ g) t h = rw (h.0) (ap (λ l. [] ∷ l) (fields_from-gap g t (h.1)))

fields-word_gap : (w g t : Text) → IsWord w → IsGap g → fields (w ++ (g ++ t)) ≡ w ∷ fields t
unfolding fields
fields-word_gap w g t hw hg =
    ap nonempty (fields_from-word w (g ++ t) (IsWord-All w hw))
    ∙ ap (λ l. nonempty (prepend w l)) (gap_first g t hg)
    ∙ nonempty-prepend w (nonempty (fields_from t)) hw

only_spaces : (tail : Text) → All IsSpace tail → fields_from tail ≡ [] ∷ []
unfolding fields_from
only_spaces [] h = refl
only_spaces (c ∷ tail) h = rw (h.0) (ap (λ l. [] ∷ nonempty l) (only_spaces tail (h.1)))

fields-last : (w tail : Text) → IsWord w → All IsSpace tail → fields (w ++ tail) ≡ w ∷ []
unfolding fields
fields-last w tail hw ht =
    ap nonempty (fields_from-word w tail (IsWord-All w hw))
    ∙ ap (λ l. nonempty (prepend w l)) (only_spaces tail ht)
    ∙ nonempty-prepend w [] hw

fields-spread :
    (w : Text) (ws : List (Text × Text)) (tail : Text)
    → IsWord w
    → AreApart ws
    → All IsSpace tail
    → fields (spread w ws tail) ≡ w ∷ map (λ (p : Text × Text). p.1) ws
unfolding spread
fields-spread w [] tail hw ha ht = fields-last w tail hw ht
fields-spread w ((g, v) ∷ ws) tail hw ha ht =
    fields-word_gap w g (spread v ws tail) hw (ha.0.0)
    ∙ ap (λ l. w ∷ l) (fields-spread v ws tail (ha.0.1) (ha.1) ht)

abbrev starts_if : (Text → Bool) → List Text → Bool
starts_if p [] = false
starts_if p (w ∷ ws) = p w

-- The words behind the state: those of the time since which it holds, and the others.
pub data Splits : List Text → List Text → List Text → Type 0 where
  date_and_time :
      (d c : Text) (info : List Text)
      → is_date d ≡ true
      → is_time c ≡ true
      → Splits (d ∷ c ∷ info) (d ∷ c ∷ []) info
  date_alone :
      (d : Text) (info : List Text)
      → is_date d ≡ true
      → starts_if is_time info ≡ false
      → Splits (d ∷ info) (d ∷ []) info
  time_alone :
      (c : Text) (info : List Text)
      → is_date c ≡ false
      → is_time c ≡ true
      → Splits (c ∷ info) (c ∷ []) info
  no_time :
      (info : List Text)
      → starts_if is_date info ≡ false
      → starts_if is_time info ≡ false
      → Splits info [] info

since_fields-Splits :
    {ws since info : List Text}
    → Splits ws since info
    → (take (since_fields ws) ws ≡ since) × (drop (since_fields ws) ws ≡ info)
unfolding since_fields
since_fields-Splits (date_and_time d c info hd hc) = rw (hd, hc) (refl, refl)
since_fields-Splits (date_alone d [] hd hc) = rw hd (refl, refl)
since_fields-Splits (date_alone d (w ∷ info) hd hc) = rw (hd, hc) (refl, refl)
since_fields-Splits (time_alone c [] hd hc) = rw (hd, hc) (refl, refl)
since_fields-Splits (time_alone c (w ∷ info) hd hc) = rw (hd, hc) (refl, refl)
since_fields-Splits (no_time [] hd hc) = (refl, refl)
since_fields-Splits (no_time (w ∷ []) hd hc) = rw (hd, hc) (refl, refl)
since_fields-Splits (no_time (w ∷ v ∷ info) hd hc) = rw (hd, hc) (refl, refl)

-- A row of words, with gaps of any widths between them and maybe spaces at its end, is read as its name,
-- protocol, table and state, in this order. Of the words behind the state, a date with a time behind it,
-- a date alone or a time alone at their front is the time since which the state holds, and the others,
-- joined by single spaces, are the info.
pub parse_protocol_row-spread :
    (name : Text) (p t st : Text × Text) (rest : List (Text × Text)) (tail : Text)
    (since info : List Text)
    → IsWord name
    → AreApart (p ∷ t ∷ st ∷ rest)
    → All IsSpace tail
    → Splits (map (λ (q : Text × Text). q.1) rest) since info
    → parse_protocol_row (spread name (p ∷ t ∷ st ∷ rest) tail)
      ≡ some (record {
        name = name;
        proto = p.1;
        table = t.1;
        state = st.1;
        since = join (32 ∷ []) since;
        info = join (32 ∷ []) info;
      })
unfolding parse_protocol_row
parse_protocol_row-spread name p t st rest tail since info hn ha ht split =
    ap row_of (fields-spread name (p ∷ t ∷ st ∷ rest) tail hn ha ht)
    ∙ rw ((since_fields-Splits split).0, (since_fields-Splits split).1) refl
