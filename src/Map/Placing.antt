-- ===== src/Map/Placing.antt =====
-- Where the entries of a map are, after one is replaced or added.
use liblor.Common.{
  length, get_elem?, get_or, set, length-append, length-set, ℕ, zero, suc, ◌+◌, ◌%◌, ◌<◌, ◌≡◌, refl,
  sym, subst, ◌∙◌, inl, inr, Option, none, some, List, [], ◌∷◌, ◌++◌, arith,
}
use liblor.Map.{Map, hash_of, insert_bucket}
use liblor.Map.Probing.{BucketsAreValid, some_empty, Reaches}
use liblor.Map.Inserting.{insert_bucket_lem}
use liblor.Map.Refilling.{Placed}
use liblor.Map.Inv.{MapIsValid}

module _ {K V : Type 0} (bytes : K → List ℕ) where
  -- A bucket that holds an entry's index plus one, to which the search for a key comes.
  abbrev pub PlacedAt : Map K V → K → ℕ → Type 0
  PlacedAt map key i =
      (b : ℕ) × (get_or map.buckets b 0 ≡ i + 1)
      × Reaches bytes map (hash_of bytes map key % length map.buckets) b

  -- Placement depends on the buckets and the hash only.
  Placed-congr :
      (map map' : Map K V) (entries : List (K × V)) (i : ℕ)
      → ((key : K) (j : ℕ) → PlacedAt map key j → PlacedAt map' key j)
      → Placed bytes map entries i
      → Placed bytes map' entries i
  Placed-congr map map' [] i f p = tt
  Placed-congr map map' ((key, value) ∷ entries) i f p =
      (f key i p.0, Placed-congr map map' entries (i + 1) f p.1)

  Placed-append :
      (map : Map K V) (entries : List (K × V)) (source : K × V) (i n : ℕ)
      → n ≡ i + length entries
      → Placed bytes map entries i
      → PlacedAt map source.0 n
      → Placed bytes map (entries ++ (source ∷ [])) i
  Placed-append map [] source i n e p q =
      (subst (λ (t : ℕ). PlacedAt map source.0 t) (omega arith) q, tt)
  Placed-append map ((key, value) ∷ entries) source i n e p q =
      (p.0, Placed-append map entries source (i + 1) n (omega arith) p.1 q)

  abbrev PlacedOption : Map K V → Option (K × V) → ℕ → Type 0
  PlacedOption map none i = Unit {0}
  PlacedOption map (some entry) i = PlacedAt map entry.0 i

  -- Where an entry of the list is.
  pub placed_at :
      (map : Map K V) (entries : List (K × V)) (entry : K × V) (i j n : ℕ)
      → n ≡ i + j
      → get_elem? entries j ≡ some entry
      → Placed bytes map entries i
      → PlacedAt map entry.0 n
  placed_at map [] entry i j n e h p = absurd (cc)
  placed_at map ((key, value) ∷ entries) entry i zero n e h p =
      subst (λ (t : ℕ). PlacedAt map entry.0 t) (omega arith)
        (subst (λ (o : Option (K × V)). PlacedOption map o i) h p.0)
  placed_at map ((key, value) ∷ entries) entry i (suc j) n e h p =
      placed_at map entries entry (i + 1) j n (omega arith) h p.1

  Placed-set :
      (map : Map K V) (entries : List (K × V)) (source : K × V) (i j n : ℕ)
      → n ≡ i + j
      → PlacedAt map source.0 n
      → Placed bytes map entries i
      → Placed bytes map (set entries j source) i
  Placed-set map [] source i j n e q p = tt
  Placed-set map ((key, value) ∷ entries) source i zero n e q p =
      (subst (λ (t : ℕ). PlacedAt map source.0 t) (omega arith) q, p.1)
  Placed-set map ((key, value) ∷ entries) source i (suc j) n e q p =
      (p.0, Placed-set map entries source (i + 1) j n (omega arith) q p.1)

  -- A map with other entries has the same searches.
  with_entries :
      (map : Map K V) (entries : List (K × V)) (s b : ℕ)
      → Reaches bytes map s b
      → Reaches bytes (record map { entries = entries }) s b
  with_entries map entries s b r = record { steps = r.steps; there = r.there; full = r.full }

  -- A valid map in which an entry's index has a source of the same hash instead.
  pub replaced-IsValid :
      (map : Map K V) (entry source : K × V) (j : ℕ)
      → MapIsValid bytes map
      → get_elem? map.entries j ≡ some entry
      → hash_of bytes map entry.0 ≡ hash_of bytes map source.0
      → MapIsValid bytes (record map { entries = set map.entries j source })
  replaced-IsValid map entry source j v e h =
      let map' = record map { entries = set map.entries j source } in
      let len = length-set map.entries j source in
      let here = placed_at map map.entries entry 0 j j (omega arith) e v.placed in
      let there : PlacedAt map source.0 j =
        subst
          (λ (t : ℕ).
            (b : ℕ) × (get_or map.buckets b 0 ≡ j + 1)
            × Reaches bytes map (t % length map.buckets) b)
          h here in
      record {
        within = omega (arith, len, v.within);
        filled = λ pos.
            let f = v.filled pos in
            record {
              exponent = f.exponent;
              power = f.power;
              refers = λ b. omega (arith, f.refers b, len);
            };
        spare = v.spare;
        used = λ pos. omega (arith, v.used pos, len);
        placed =
            Placed-congr map map' (set map.entries j source) 0
              (λ key n (b, stored, r).
                (b, stored, with_entries map (set map.entries j source) _ b r))
              (Placed-set map map.entries source 0 j j (omega arith) there v.placed);
        none_yet = v.none_yet;
      }

  -- A valid map with room, after an entry was added and its index put among the buckets.
  pub added_lem :
      (map : Map K V) (source : K × V)
      → MapIsValid bytes map
      → length map.entries < map.capacity
      → (result : Map K V) × (insert_bucket bytes
            (record map { entries = map.entries ++ (source ∷ []) })
            source.0
            (length map.entries)
          ≡ some result)
        × (result.entries ≡ map.entries ++ (source ∷ []))
        × (result.config ≡ map.config)
        × (result.key_size ≡ map.key_size)
        × MapIsValid bytes result
  added_lem map source v room =
      let more = map.entries ++ (source ∷ []) in
      let map' = record map { entries = more } in
      let len = length-append map.entries (source ∷ []) in
      let f = v.filled (omega arith) in
      let spare = v.spare (omega arith) in
      let used = v.used (omega arith) in
      let valid : BucketsAreValid map' = record {
        exponent = f.exponent;
        power = f.power;
        refers = λ b. omega (arith, f.refers b, len);
      } in
      let (e, bounded_e, vacant) = some_empty map.buckets (omega arith) in
      let ins =
        insert_bucket_lem bytes map' source.0 (length map.entries) e valid bounded_e vacant in
      let result = record map' { buckets = ins.filled } in
      (
        result,
        ins.is,
        refl,
        refl,
        refl,
        record {
          within = omega arith;
          filled = λ _. record {
            exponent = f.exponent;
            power = ins.width ∙ f.power;
            refers = λ b. elim (ins.values b) [
              | inl new ↦ omega arith
              | inr old ↦ omega (arith, f.refers b)
            ];
          };
          spare = λ _. omega (arith, ins.width);
          used = λ _. omega (arith, ins.width, ins.emptier);
          placed =
              Placed-append result map.entries source 0 (length map.entries) (omega arith)
                (Placed-congr map result map.entries 0
                  (λ key n (b, stored, r). (
                    b,
                    ins.others b (λ z. absurd (omega arith)) ∙ stored,
                    subst (λ (t : ℕ). Reaches bytes result (hash_of bytes map key % t) b)
                        (sym ins.width) (ins.paths _ b (with_entries map more _ b r)),
                  ))
                  v.placed)
                (
                  ins.bucket,
                  ins.stored,
                  subst
                      (λ (t : ℕ). Reaches bytes result (hash_of bytes map source.0 % t) ins.bucket)
                      (sym ins.width) ins.reached,
                );
          none_yet = λ z. absurd (omega arith);
        },
      )
