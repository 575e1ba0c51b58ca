-- ===== src/Map/Refilling.antt =====
-- `lor_map__fill_buckets` puts every entry where the search for its key comes.
use mathlib.Core.Option
use liblor.Common.{
  length, get_or, replicate, length-replicate, ℕ, zero, suc, ◌+◌, ◌%◌, ◌^◌, ◌≤◌, ◌<◌, ◌≡◌, refl,
  sym, subst, ◌∙◌, ◌≢◌, inl, inr, Option, some, List, [], ◌∷◌, arith,
}
use liblor.Map.{Map, hash_of, fill_from, fill_buckets}
use liblor.Map.Probing.{BucketsAreValid, empties, empties-replicate, some_empty, Reaches}
use liblor.Map.Inserting.{insert_bucket_lem}

get_or-zeros : (n b : ℕ) → ◌≡◌ {A = ℕ} (get_or (replicate n 0) b 0) 0
get_or-zeros zero b = refl
get_or-zeros (suc n) zero = refl
get_or-zeros (suc n) (suc b) = get_or-zeros n b

module _ {K V : Type 0} (bytes : K → List ℕ) where
  -- Entries from an index on are each in a bucket to which the search for their key comes.
  abbrev pub Placed : Map K V → List (K × V) → ℕ → Type 0
  Placed map [] i = Unit {0}
  Placed map ((key, value) ∷ entries) i =
      ((b : ℕ) × (get_or map.buckets b 0 ≡ i + 1)
        × Reaches bytes map (hash_of bytes map key % length map.buckets) b)
      × Placed map entries (i + 1)

  -- What filling in entries from index `i` on gives.
  pub record Refills (map : Map K V) (entries : List (K × V)) (i : ℕ) (out : Option (Map K V))
      : Type 0 where
    pub filled : List ℕ
    pub is : out ≡ some (record map { buckets = filled })
    pub width : length filled ≡ length map.buckets
    pub emptied : empties filled + length entries ≡ empties map.buckets
    pub valid : BucketsAreValid (record map { buckets = filled })
    pub others : (b : ℕ) → get_or map.buckets b 0 ≢ 0 → get_or filled b 0 ≡ get_or map.buckets b 0
    pub paths :
        (s b : ℕ) → Reaches bytes map s b → Reaches bytes (record map { buckets = filled }) s b
    pub placed : Placed (record map { buckets = filled }) entries i

  fill_from_lem :
      (map : Map K V) (entries : List (K × V)) (i : ℕ)
      → BucketsAreValid map
      → i + length entries ≤ length map.entries
      → length entries ≤ empties map.buckets
      → Refills map entries i (fill_from bytes entries i map)
  unfolding fill_from Option.bind
  fill_from_lem map [] i v h room = record {
    filled = map.buckets;
    is = refl;
    width = refl;
    emptied = omega arith;
    valid = v;
    others = λ b full. refl;
    paths = λ s b r. r;
    placed = tt;
  }
  fill_from_lem map ((key, value) ∷ entries) i v h room =
      let (e, bounded_e, vacant) = some_empty map.buckets (omega arith) in
      let ins = insert_bucket_lem bytes map key i e v bounded_e vacant in
      let map' = record map { buckets = ins.filled } in
      let v' : BucketsAreValid map' = record {
        exponent = v.exponent;
        power = ins.width ∙ v.power;
        refers = λ b. elim (ins.values b) [
          | inl new ↦ omega arith
          | inr old ↦ omega (arith, v.refers b)
        ];
      } in
      let rest = fill_from_lem map' entries (i + 1) v' (omega arith) (omega (arith, ins.emptier)) in
      let there : get_or ins.filled ins.bucket 0 ≢ 0 = λ z. absurd (omega (arith, ins.stored)) in
      rw (ins.is) (record {
        filled = rest.filled;
        is = rest.is;
        width = rest.width ∙ ins.width;
        emptied = omega (arith, rest.emptied, ins.emptier);
        valid = rest.valid;
        others =
            λ b full. rest.others b (λ z. full (sym (ins.others b full) ∙ z)) ∙ ins.others b full;
        paths = λ s b r. rest.paths s b (ins.paths s b r);
        placed = (
          (
            ins.bucket,
            rest.others ins.bucket there ∙ ins.stored,
            subst
                (λ (n : ℕ).
                  Reaches bytes (record map { buckets = rest.filled }) (hash_of bytes map key % n)
                    ins.bucket)
                (sym (rest.width ∙ ins.width)) (rest.paths _ ins.bucket ins.reached),
          ),
          rest.placed,
        );
      })

  -- Filling the entries of a map into a power of two of fresh buckets that are more than the
  -- entries ends: as many buckets are used as there are entries, and each entry's index plus one
  -- is in a bucket that the search from its key's first bucket comes to.
  pub fill_buckets_lem :
      (map : Map K V) (k : ℕ)
      → length map.entries < 2 ^ k
      → (filled : List ℕ) × (fill_buckets bytes map (replicate (2 ^ k) 0)
          ≡ some (record map { buckets = filled }))
        × BucketsAreValid (record map { buckets = filled })
        × (length filled ≡ 2 ^ k)
        × (empties filled + length map.entries ≡ 2 ^ k)
        × Placed (record map { buckets = filled }) map.entries 0
  unfolding fill_buckets
  fill_buckets_lem map k h =
      let zeros : List ℕ = replicate (2 ^ k) 0 in
      let fresh = record map { buckets = zeros } in
      let v : BucketsAreValid fresh = record {
        exponent = k;
        power = length-replicate (2 ^ k) 0;
        refers = λ b. omega (arith, get_or-zeros (2 ^ k) b);
      } in
      let r =
        fill_from_lem fresh map.entries 0 v (omega arith)
          (omega (arith, empties-replicate (2 ^ k))) in
      (
        r.filled,
        r.is,
        r.valid,
        r.width ∙ length-replicate (2 ^ k) 0,
        r.emptied ∙ empties-replicate (2 ^ k),
        r.placed,
      )
