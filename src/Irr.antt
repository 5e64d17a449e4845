-- ===== src/Irr.antt =====
-- internal/web/irr_refresh.go: the refresh of the sets that come from IRR, by the answers of bgpq4 that
-- Answers reads.
use birdy.Common.{
  ℕ, ◌+◌, ◌-◌, ◌*◌, Bool, true, false, not, ◌&&◌, ◌||◌, List, [], ◌∷◌, ◌++◌, Option, none, some,
  Text, codes, is_empty, if◌then◌else◌, ◌==◌, leb, ltb, length, map, keep_if, is_in, distinct,
  text_eq, itoa, cut,
}
use birdy.Sets.{
  PrefixEntry, PrefixSet, AsnRange, AsSet, Db, Faults, Result, ok, err, M, Event, emit_event,
}
use birdy.Sets.Prefixes.{
  pattern, refresh_prefix_set_entries, mark_prefix_set_refreshed, mark_prefix_set_refresh_error,
  list_auto_refresh_prefix_sets,
}
use birdy.Sets.Asns.{
  refresh_as_set_entries, mark_as_set_refreshed, mark_as_set_refresh_error,
  list_auto_refresh_as_sets,
}
use birdy.Irr.Answers.{Answer, got, no_answer, Item, prefixes, asns}
pub mod Answers
pub mod Diffs
pub mod Guarded
pub mod Kept
pub mod Rounds

-- How many keys of the second list are not in the first.
pub missing {ℓ} : {A : Type ℓ} → (A → A → Bool) → List A → List A → ℕ
missing eq have next = length (keep_if (λ k. not (is_in eq k have)) (distinct eq next))

abbrev pub patterns : List PrefixEntry → List Text
patterns es = map pattern es

-- `diffEntries`: how many are added and removed.
pub diff_entries : List PrefixEntry → List PrefixEntry → ℕ × ℕ
unfolding missing
diff_entries old fresh = (
  missing text_eq (patterns old) (patterns fresh),
  missing text_eq (patterns fresh) (patterns old),
)

abbrev pub Bounds : Type 0
Bounds = ℕ × ℕ

abbrev pub same_bounds : Bounds → Bounds → Bool
same_bounds (a, b) (c, d) = a == c && b == d

abbrev pub bounds : List AsnRange → List Bounds
bounds es = map (λ (e : AsnRange). (e.low, e.high)) es

-- `diffASNs`
pub diff_asns : List AsnRange → List AsnRange → ℕ × ℕ
unfolding missing
diff_asns old fresh = (
  missing same_bounds (bounds old) (bounds fresh),
  missing same_bounds (bounds fresh) (bounds old),
)

-- The bytes of the dash in the messages.
abbrev dash : Text
dash = 226 ∷ 128 ∷ 148 ∷ []

pub refresh_event : Text → Text → Text → ℕ × ℕ → Event
unfolding itoa
refresh_event what name source (new, gone) = record {
  kind = codes "irr_refresh";
  protocol = [];
  message =
      what
      ++ (name
          ++ (codes " refreshed from "
              ++ (source
                  ++ (codes " (+"
                      ++ (itoa new
                          ++ (codes "/-"
                              ++ (itoa gone
                                  ++ (codes ") "
                                      ++ (dash
                                          ++ codes " review it under Changes and apply")))))))));
}

-- A result that is only logged, or not looked at.
abbrev pub ignored : Result (Unit {0}) × Db × Faults → Db × Faults
ignored (r, db, fs) = (db, fs)

abbrev pub announced : Event → Result (Unit {0}) × Db × Faults → Db × Faults
announced e (ok u, db, fs) = emit_event e db fs
announced e (err f, db, fs) = (db, fs)

abbrev pub no_change : ℕ × ℕ → Bool
no_change (new, gone) = new == 0 && gone == 0

-- `refreshOneSet`, once the expansion has come.
abbrev refresh_with : PrefixSet → List PrefixEntry → Db → Faults → Db × Faults
refresh_with set fresh db fs =
    if length fresh == 0 && ltb 0 (length set.entries)
    then ignored (
        mark_prefix_set_refresh_error set.id
          (codes "IRR expansion returned no prefixes; kept the previous list") db fs)
    else if no_change (diff_entries set.entries fresh)
    then ignored (mark_prefix_set_refreshed set.id db fs)
    else announced
        (refresh_event (codes "Prefix set ") set.name set.source (diff_entries set.entries fresh))
        (refresh_prefix_set_entries set.id fresh db fs)

-- `refreshOneSet`
pub refresh_one_set : Answer PrefixEntry → PrefixSet → Db → Faults → Db × Faults
unfolding mark_prefix_set_refresh_error mark_prefix_set_refreshed refresh_prefix_set_entries
    emit_event diff_entries refresh_event
refresh_one_set (no_answer e) set db fs = ignored (mark_prefix_set_refresh_error set.id e db fs)
refresh_one_set (got fresh) set db fs = refresh_with set fresh db fs

-- The note of an AS number: of its single-number entries with a note, that of the last.
note_of : List AsnRange → ℕ → Text
note_of [] asn = []
note_of (e ∷ es) asn =
    let later = note_of es asn in
    let here = if not (is_empty e.note) && e.low == e.high && e.low == asn then e.note else [] in
    if is_empty later then here else later

pub fresh_members : List AsnRange → List ℕ → List AsnRange
unfolding note_of
fresh_members old found =
    map (λ asn. record { low = asn; high = asn; note = note_of old asn }) found

-- `refreshOneASSet`; the text that it returns for the button is left out.
abbrev refresh_as_with : AsSet → List ℕ → Db → Faults → Db × Faults
refresh_as_with set found db fs =
    if length found == 0
    then ignored (
        mark_as_set_refresh_error set.id
          (codes "IRR expansion returned no AS numbers; kept the previous members") db fs)
    else let fresh = fresh_members set.entries found in
      if no_change (diff_asns set.entries fresh)
      then ignored (mark_as_set_refreshed set.id db fs)
      else announced
          (refresh_event (codes "AS set ") set.name set.source (diff_asns set.entries fresh))
          (refresh_as_set_entries set.id fresh db fs)

pub refresh_one_as_set : Answer ℕ → AsSet → Db → Faults → Db × Faults
unfolding mark_as_set_refresh_error mark_as_set_refreshed refresh_as_set_entries emit_event
    diff_asns refresh_event fresh_members
refresh_one_as_set (no_answer e) set db fs = ignored (mark_as_set_refresh_error set.id e db fs)
refresh_one_as_set (got found) set db fs = refresh_as_with set found db fs

abbrev pub ipv6 : Text
ipv6 = codes "ipv6"

pub refresh_sets : (Text → Bool → Answer Item) → List PrefixSet → Db → Faults → Db × Faults
unfolding prefixes refresh_one_set
refresh_sets run [] db fs = (db, fs)
refresh_sets run (s ∷ sets) db fs =
    let (db', fs') = refresh_one_set (prefixes run s.source (text_eq s.family ipv6)) s db fs in
    refresh_sets run sets db' fs'

pub refresh_as_sets : (Text → Answer ℕ) → List AsSet → Db → Faults → Db × Faults
unfolding asns refresh_one_as_set
refresh_as_sets run [] db fs = (db, fs)
refresh_as_sets run (s ∷ sets) db fs =
    let (db', fs') = refresh_one_as_set (asns run s.source) s db fs in
    refresh_as_sets run sets db' fs'

-- A list that cannot be read is taken as empty.
abbrev pub listed :
    {A : Type 0}
    → (List A → Db → Faults → Db × Faults)
    → Result (List A) × Db × Faults
    → Db × Faults
listed loop (ok xs, db, fs) = loop xs db fs
listed loop (err e, db, fs) = (db, fs)

-- `refreshIRRSets`
unfoldable pub refresh_irr_sets :
    (Text → Bool → Answer Item) → (Text → Answer ℕ) → Db → Faults → Db × Faults
unfolding list_auto_refresh_prefix_sets list_auto_refresh_as_sets refresh_sets refresh_as_sets
refresh_irr_sets run run_asns db fs =
    let (db', fs') = listed (refresh_sets run) (list_auto_refresh_prefix_sets db fs) in
    listed (refresh_as_sets run_asns) (list_auto_refresh_as_sets db' fs')
