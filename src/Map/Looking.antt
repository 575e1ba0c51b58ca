-- ===== src/Map/Looking.antt =====
-- `lor_map_find_raw`: the search for a key in a valid map.
use liblor.Common.{
  ◌==◌, Bool-cases, length, get_elem?, get_or, ℕ, zero, suc, ◌-◌, ◌%◌, ◌<◌, ◌≡◌, refl, sym, ap,
  subst, ◌∙◌, inl, inr, true, false, Option, none, some, List, [], ◌∷◌, arith,
}
use liblor.Map.{
  Map, Probe, found, absent, lost, matches_layout, key_is_valid, hash_of, keys_equal, find_bucket,
}
use liblor.Map.Ops.{find_entry}
use liblor.Map.Probing.{some_empty, Hits, Reaches}
use liblor.Map.Finding.{Searched, find_bucket_lem}
use liblor.Map.Inv.{MapIsValid}
use liblor.Map.Placing.{placed_at}

get_elem?-lt : {A : Type 0} (xs : List A) (j : ℕ) (a : A) → get_elem? xs j ≡ some a → j < length xs
get_elem?-lt [] j a e = absurd (cc)
get_elem?-lt (x ∷ xs) zero a e = omega arith
get_elem?-lt (x ∷ xs) (suc j) a e = omega (arith, get_elem?-lt xs j a e)

module _ {K V : Type 0} (bytes : K → List ℕ) where
  -- Equal keys have the same hash.
  abbrev pub Respects : Map K V → Type 0
  Respects map =
      (a b : K) → keys_equal bytes map a b ≡ true → hash_of bytes map a ≡ hash_of bytes map b

  -- No entry has an equal key.
  abbrev pub NoEntry : Map K V → K → Type 0
  NoEntry map key =
      (j : ℕ) (old : K × V)
      → get_elem? map.entries j ≡ some old
      → keys_equal bytes map old.0 key ≡ false

  -- What a search answers in a valid map: the bucket of an entry with an equal key, or that there is
  -- none.
  unfoldable pub Looked : Map K V → K → Probe → Type 0
  Looked map key (found b) = Hits bytes map key b
  Looked map key absent = NoEntry map key
  Looked map key lost = ⊥

  probe-Looked :
      (map : Map K V) (key : K) (out : Probe)
      → MapIsValid bytes map
      → Respects map
      → Searched bytes map key (hash_of bytes map key % length map.buckets) out
      → Looked map key out
  unfolding Looked Searched Hits
  probe-Looked map key (found b) v respects h = h
  probe-Looked map key lost v respects h = h
  probe-Looked map key absent v respects h = λ j old e.
      elim (Bool-cases (keys_equal bytes map old.0 key)) [
        | inr other ↦ other
        | inl same ↦
            let (b, stored, r) =
              placed_at bytes map map.entries old 0 j j (omega arith) e v.placed in
            absurd (
              h b
                (subst (λ (t : ℕ). Reaches bytes map (t % length map.buckets) b)
                  (respects old.0 key same) r)
                (
                  (λ z. absurd (omega arith)),
                  (
                    old,
                    ap (λ (t : ℕ). get_elem? map.entries t) {x = get_or map.buckets b 0 - 1} {y = j}
                          (omega arith)
                        ∙ e,
                    same,
                  ),
                ))
      ]

  find_without_buckets :
      (map : Map K V) (key : K) → map.buckets ≡ [] → find_bucket bytes map key ≡ absent
  unfolding find_bucket
  find_without_buckets map key e = rw e refl

  pub find_in_valid :
      (map : Map K V) (key : K)
      → MapIsValid bytes map
      → Respects map
      → Looked map key (find_bucket bytes map key)
  find_in_valid map key v respects = elim (Bool-cases (map.capacity == 0)) [
    | inl none_yet ↦ rw (find_without_buckets map key (v.none_yet (ground arith))) (
        unfold Looked in
        λ j old e. absurd (ground (arith, get_elem?-lt map.entries j old e, v.within)))
    | inr some_yet ↦
        let spare = v.spare (ground arith) in
        let used = v.used (ground arith) in
        let (e, bounded_e, vacant) = some_empty map.buckets (omega (arith, v.within)) in
        probe-Looked map key (find_bucket bytes map key) v respects
          (find_bucket_lem bytes map key e (v.filled (ground arith)) bounded_e vacant)
  ]

  -- What finding a key in a valid map answers.
  pub record Finds (entry_size key_size : ℕ) (map : Map K V) (key : K) (out : Option ℕ)
      : Type 0 where
    pub hits :
        (j : ℕ)
        → out ≡ some j
        → (old : K × V) × (get_elem? map.entries j ≡ some old)
          × (keys_equal bytes map old.0 key ≡ true)
    pub misses :
        out ≡ none
        → matches_layout (some map) entry_size key_size ≡ true
        → key_is_valid map key ≡ true
        → NoEntry map key

  -- Finding a key in a valid map whose equal keys have the same hash never loses the search. It answers
  -- the index of an entry with an equal key; if it answers none for a valid key and the map's layout,
  -- no entry has an equal key.
  pub find_entry_lem :
      (entry_size key_size : ℕ) (map : Map K V) (key : K)
      → MapIsValid bytes map
      → Respects map
      → (out : Option ℕ) × (find_entry bytes entry_size key_size (some key) (some map) ≡ some out)
        × Finds entry_size key_size map key out
  unfolding find_entry Looked Hits
  find_entry_lem entry_size key_size map key v respects =
      elim (Bool-cases (matches_layout (some map) entry_size key_size)) [
        | inr bad ↦ rw bad (
          none,
          refl,
          record {
            hits = λ j e. absurd (cc);
            misses = λ e fits. absurd (let d = sym bad ∙ fits in cc);
          },
        )
        | inl fits ↦ elim (Bool-cases (key_is_valid map key)) [
          | inr bad ↦
              rw (fits, bad)
                (
                  none,
                  refl,
                  record {
                    hits = λ j e. absurd (cc);
                    misses = λ e f good. absurd (let d = sym bad ∙ good in cc);
                  },
                )
          | inl good ↦
              rw (fits, good)
                (answered (find_bucket bytes map key) (find_in_valid map key v respects))
        ]
      ]
    where
      answered :
          (where_key : Probe)
          → Looked map key where_key
          → (out : Option ℕ) × ((elim where_key [
            | lost ↦ none
            | absent ↦ some none
            | found bucket ↦ some (some (get_or map.buckets bucket 0 - 1))
          ])
              ≡ some out)
            × Finds entry_size key_size map key out
      answered (found b) looked =
          let (nonzero, hit) = looked in
          (
            some (get_or map.buckets b 0 - 1),
            refl,
            record {
              hits = λ j e.
                  let same : get_or map.buckets b 0 - 1 ≡ j = cc in
                  subst
                    (λ (t : ℕ).
                      (old : K × V) × (get_elem? map.entries t ≡ some old)
                      × (keys_equal bytes map old.0 key ≡ true))
                    same hit;
              misses = λ e. absurd (cc);
            },
          )
      answered absent looked =
          (none, refl, record { hits = λ j e. absurd (cc); misses = λ e f g. looked })
      answered lost looked = absurd (looked)
