-- ===== src/Sets/Dangling.antt =====
-- internal/store/prefixsets.go and assets.go: deleting a set leaves no policy that names it.
use birdy.Common.{ℕ, ◌+◌, true, not, List, [], ◌∷◌, ◌≡◌, refl, arith, length, ltb, keep_if, any_of}
use birdy.Sets.{PrefixSet, Db, Faults, Result, ok, err, exec_one, query, in_use, system_set}
use birdy.Sets.Prefixes
use birdy.Sets.Prefixes.{
  get_prefix_set, first_of, rows_of, is_some_of, prefix_set_usage, delete_prefix_set,
}
use birdy.Sets.Asns
use birdy.Sets.Asns.{as_set_usage, delete_as_set}
use birdy.Sets.Outcomes.{Post, bound-Post, Still, query-Post, guard-Post, exec_one-Post}
use birdy.Sets.Named.{
  NoDangling, without, accepts, NoDangling-without, without_as, filters, NoDangling-without_as,
}

module _ (id : ℕ) (db : Db) where
  first_of-Post :
      (sets : List PrefixSet) (d : Db) (fs : Faults)
      → d ≡ db
      → Post (λ s d'. d' ≡ db) (Still db) (first_of sets d fs)
  first_of-Post [] d fs e = e
  first_of-Post (s ∷ sets) d fs e = e

  only-Still :
      {A : Type 0} (s : A) (r : Result A × Db × Faults)
      → Post (λ x d. (x ≡ s) × (d ≡ db)) (Still db) r
      → Post (λ x d. d ≡ db) (Still db) r
  only-Still s (ok x, d, fs) h = h.1
  only-Still s (err e, d, fs) h = h

  finished :
      (d : Db) (r : Result (Unit {0}) × Db × Faults)
      → NoDangling d
      → Post (λ u d'. d' ≡ d) (Still db) r
      → Post (λ u d'. NoDangling d') (Still db) r
  finished d (ok u, d', fs) h e = rw e h
  finished d (err f, d', fs) h e = e

  get_prefix_set-Post : (fs : Faults) → Post (λ s d. d ≡ db) (Still db) (get_prefix_set id db fs)
  unfolding get_prefix_set
  get_prefix_set-Post fs =
      bound-Post (λ s d. d ≡ db) (λ s d. d ≡ db) (Still db) _ _
        (bound-Post (λ x d. (x ≡ keep_if (Prefixes.at_id id) db.prefix_sets) × (d ≡ db))
          (λ s d. d ≡ db) (Still db) _ _
          (query-Post (λ d. keep_if (Prefixes.at_id id) d.prefix_sets) db db fs refl)
          (λ x d gs e. first_of-Post x d gs (e.1)))
        (λ s d gs e. only-Still s (query (λ d'. s) d gs) (query-Post (λ d'. s) db d gs e))

  -- How often policies name the set.
  abbrev uses : ℕ
  uses = rows_of id db.policies + length (keep_if (accepts id) db.policies)

  prefix_set_usage-Post :
      (d : Db) (fs : Faults)
      → d ≡ db
      → Post (λ n d'. (n ≡ uses) × (d' ≡ db)) (Still db) (prefix_set_usage id d fs)
  unfolding prefix_set_usage
  prefix_set_usage-Post d fs e =
      bound-Post (λ n d'. (n ≡ rows_of id db.policies) × (d' ≡ db)) (λ n d'. (n ≡ uses) × (d' ≡ db))
        (Still db) _ _ (query-Post (λ d'. rows_of id d'.policies) db d fs e)
        (λ n d1 gs h.
          bound-Post (λ m d2. (m ≡ length (keep_if (accepts id) db.policies)) × (d2 ≡ db))
            (λ m d2. (m ≡ uses) × (d2 ≡ db)) (Still db) _ _
            (query-Post (λ d2. length (keep_if (accepts id) d2.policies)) db d1 gs (h.1))
            (λ m d2 hs i. (omega (arith, h.0, i.0), i.1)))

  delete_prefix_set-Post :
      (fs : Faults)
      → NoDangling db
      → Post (λ u d. NoDangling d) (Still db) (delete_prefix_set id db fs)
  unfolding delete_prefix_set
  delete_prefix_set-Post fs h =
      bound-Post (λ s d. d ≡ db) _ (Still db) _ _ (get_prefix_set-Post fs)
        (λ s d1 gs e1.
          bound-Post (λ u d. (not s.system ≡ true) × (d ≡ db)) _ (Still db) _ _
            (guard-Post (not s.system) system_set db d1 gs e1)
            (λ u d2 hs e2.
              bound-Post (λ n d. (n ≡ uses) × (d ≡ db)) _ (Still db) _ _
                (prefix_set_usage-Post d2 hs (e2.1))
                (λ n d3 is e3.
                  bound-Post (λ u d. (not (ltb 0 n) ≡ true) × (d ≡ db)) _ (Still db) _ _
                    (guard-Post (not (ltb 0 n)) in_use db d3 is (e3.1))
                    (λ u d4 js e4.
                      let none_use : uses ≡ 0 = ground (arith, e4, e3) in
                      finished (without id db)
                        (exec_one (λ d. any_of (Prefixes.at_id id) d.prefix_sets) (without id) d4
                          js)
                        (NoDangling-without id db h (omega (arith, none_use))
                          (omega (arith, none_use)))
                        (exec_one-Post (λ d. any_of (Prefixes.at_id id) d.prefix_sets) (without id)
                          db d4 js (e4.1))))))

  delete_as_set-Post :
      (fs : Faults) → NoDangling db → Post (λ u d. NoDangling d) (Still db) (delete_as_set id db fs)
  unfolding delete_as_set as_set_usage
  delete_as_set-Post fs h =
      bound-Post (λ n d. (n ≡ length (keep_if (filters id) db.policies)) × (d ≡ db)) _ (Still db) _
        _ (query-Post (λ d. length (keep_if (filters id) d.policies)) db db fs refl)
        (λ n d3 is e3.
          bound-Post (λ u d. (not (ltb 0 n) ≡ true) × (d ≡ db)) _ (Still db) _ _
            (guard-Post (not (ltb 0 n)) in_use db d3 is (e3.1))
            (λ u d4 js e4.
              finished (without_as id db)
                (exec_one (λ d. any_of (Asns.at_id id) d.as_sets) (without_as id) d4 js)
                (NoDangling-without_as id db h (ground (arith, e4, e3)))
                (exec_one-Post (λ d. any_of (Asns.at_id id) d.as_sets) (without_as id) db d4 js
                  (e4.1))))

  ended :
      (r : Result (Unit {0}) × Db × Faults)
      → NoDangling db
      → Post (λ u d. NoDangling d) (Still db) r
      → NoDangling (r.1)
  ended (ok u, d, fs) h k = k
  ended (err e, d, fs) h k = rw k h

  -- Deleting a prefix set or an AS set, whatever fails, leaves no policy that names a set which is not
  -- there, if none did before.
  pub delete-NoDangling :
      (fs : Faults)
      → NoDangling db
      → NoDangling ((delete_prefix_set id db fs).1) × NoDangling ((delete_as_set id db fs).1)
  delete-NoDangling fs h = (
    ended (delete_prefix_set id db fs) h (delete_prefix_set-Post fs h),
    ended (delete_as_set id db fs) h (delete_as_set-Post fs h),
  )
