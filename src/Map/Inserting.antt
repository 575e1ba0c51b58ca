-- ===== src/Map/Inserting.antt =====
-- `lor_map__insert_bucket` puts an entry where the search finds it, and leaves the others where
-- theirs do.
use Prim.Native.Nat.{bit_and}
use native.Mathlib.Nat.{mod-lt}
use liblor.Common.{
  ◌==◌, Bool-cases, length, get_or, set, length-set, get_or-set_self, get_or-set_ne, bit_and-mask,
  ℕ, zero, suc, ◌+◌, ◌-◌, ◌%◌, ◌<◌, ◌≡◌, refl, sym, ap, subst, ◌∙◌, ◌≢◌, ◌⊎◌, inl, inr, Option,
  some, List, arith,
}
use liblor.Map.{Map, free_bucket, bucket_for, hash_of, insert_bucket}
use liblor.Map.Probing.{
  BucketsAreValid, around, next_bucket, around-next, start-around, ahead, empties, empties-set,
  Reaches, empty_ahead,
}

module _ {K V : Type 0} (bytes : K → List ℕ) where
  -- The first empty bucket.
  record Frees (map : Map K V) (start : ℕ) (out : Option ℕ) : Type 0 where
    pub bucket : ℕ
    pub is : out ≡ some bucket
    pub empty : get_or map.buckets bucket 0 ≡ 0
    pub bounded : bucket < length map.buckets
    pub reached : Reaches bytes map start bucket

  -- A search from a full bucket goes on at the next.
  from_this :
      (map : Map K V) (start b : ℕ)
      → start < length map.buckets
      → get_or map.buckets start 0 ≢ 0
      → Reaches bytes map ((start + 1) % length map.buckets) b
      → Reaches bytes map start b
  from_this map start b i here r = record {
    steps = suc r.steps;
    there = sym (around-next (length map.buckets) start r.steps i) ∙ r.there;
    full = full;
  }
    where
      full :
          (d : ℕ) → d < suc r.steps → get_or map.buckets (around (length map.buckets) start d) 0 ≢ 0
      full zero h e = here (
          ap (λ (t : ℕ). get_or map.buckets t 0) (sym (start-around (length map.buckets) start i))
          ∙ e)
      full (suc d) h e =
          r.full d (omega arith) (
            ap (λ (t : ℕ). get_or map.buckets t 0) (around-next (length map.buckets) start d i) ∙ e)

  free_bucket_lem :
      (map : Map K V) (fuel d start : ℕ)
      → BucketsAreValid map
      → start < length map.buckets
      → d < fuel
      → get_or map.buckets (around (length map.buckets) start d) 0 ≡ 0
      → Frees map start (free_bucket fuel map.buckets start)
  unfolding free_bucket
  free_bucket_lem map zero d start v i f e = absurd (omega arith)
  free_bucket_lem map (suc fuel) d start v i f e =
      let n = length map.buckets in
      elim (Bool-cases (get_or map.buckets start 0 == 0)) [
        | inl empty ↦ rw empty (record {
          bucket = start;
          is = refl;
          empty = ground arith;
          bounded = i;
          reached = record {
            steps = 0;
            there = start-around n start i;
            full = λ d' h. absurd (omega arith);
          };
        })
        | inr full ↦
            let here : get_or map.buckets start 0 ≢ 0 = λ z. absurd (ground arith) in
            let (d', s, e') = empty_ahead bytes map start d i e here in
            let next : (start + 1) % n < n = mod-lt (start + 1) (omega arith) in
            let found_later =
              free_bucket_lem map fuel d' ((start + 1) % n) v next (omega arith) e' in
            rw (full, next_bucket n v.exponent start v.power)
              (record {
                bucket = found_later.bucket;
                is = found_later.is;
                empty = found_later.empty;
                bounded = found_later.bounded;
                reached = from_this map start found_later.bucket i here found_later.reached;
              })
      ]

  -- What an insertion for the bucket `start` does to the buckets.
  pub record Inserts (map : Map K V) (start index : ℕ) (out : Option (Map K V)) : Type 0 where
    pub filled : List ℕ
    pub is : out ≡ some (record map { buckets = filled })
    pub width : length filled ≡ length map.buckets
    pub emptier : empties filled + 1 ≡ empties map.buckets
    pub bucket : ℕ
    pub stored : get_or filled bucket 0 ≡ index + 1
    pub reached : Reaches bytes (record map { buckets = filled }) start bucket
    pub values :
        (b : ℕ) → (get_or filled b 0 ≡ index + 1) ⊎ (get_or filled b 0 ≡ get_or map.buckets b 0)
    pub others : (b : ℕ) → get_or map.buckets b 0 ≢ 0 → get_or filled b 0 ≡ get_or map.buckets b 0
    pub paths :
        (s b : ℕ) → Reaches bytes map s b → Reaches bytes (record map { buckets = filled }) s b

  -- Filling an empty bucket.
  set_bucket_lem :
      (map : Map K V) (start index bucket : ℕ)
      → get_or map.buckets bucket 0 ≡ 0
      → bucket < length map.buckets
      → Reaches bytes map start bucket
      → Inserts map start index (some (record map { buckets = set map.buckets bucket (index + 1) }))
  set_bucket_lem map start index bucket empty i reached = record {
    filled = set map.buckets bucket (index + 1);
    is = refl;
    width = length-set map.buckets bucket (index + 1);
    emptier = empties-set map.buckets bucket (index + 1) empty i (omega arith);
    bucket = bucket;
    stored = get_or-set_self map.buckets bucket (index + 1) 0 i;
    reached = paths start bucket reached;
    values = values;
    others = others;
    paths = paths;
  }
    where
      others :
          (b : ℕ)
          → get_or map.buckets b 0 ≢ 0
          → get_or (set map.buckets bucket (index + 1)) b 0 ≡ get_or map.buckets b 0
      others b full =
          get_or-set_ne map.buckets bucket b (index + 1) 0
            (λ e. full (ap (λ (t : ℕ). get_or map.buckets t 0) (sym e) ∙ empty))

      values :
          (b : ℕ)
          → (get_or (set map.buckets bucket (index + 1)) b 0 ≡ index + 1)
            ⊎ (get_or (set map.buckets bucket (index + 1)) b 0 ≡ get_or map.buckets b 0)
      values b = elim (Bool-cases (bucket == b)) [
        | inl here ↦
            let e : bucket ≡ b = ground arith in
            inl (
              subst (λ (t : ℕ). get_or (set map.buckets bucket (index + 1)) t 0 ≡ index + 1) e
                (get_or-set_self map.buckets bucket (index + 1) 0 i))
        | inr other ↦
            inr (get_or-set_ne map.buckets bucket b (index + 1) 0 (λ e. absurd (ground arith)))
      ]

      paths :
          (s b : ℕ)
          → Reaches bytes map s b
          → Reaches bytes (record map { buckets = set map.buckets bucket (index + 1) }) s b
      paths s b r =
          let e = length-set map.buckets bucket (index + 1) in
          record {
            steps = r.steps;
            there = ap (λ (n : ℕ). around n s r.steps) e ∙ r.there;
            full = λ d h z. r.full d h (
                sym (others (around (length map.buckets) s d) (r.full d h))
                ∙ ap (λ (n : ℕ). get_or (set map.buckets bucket (index + 1)) (around n s d) 0)
                    (sym e)
                ∙ z);
          }

  -- In a map whose number of buckets is a power of two, whose buckets hold no index beyond the
  -- entries, and of which a bucket is empty, an insertion ends within as many rounds as there are
  -- buckets. It puts the index plus one into a bucket that was empty and that the search from the
  -- key's first bucket comes to; every full bucket keeps its index, and what a search came to it
  -- still comes to.
  pub insert_bucket_lem :
      (map : Map K V) (key : K) (index e : ℕ)
      → BucketsAreValid map
      → e < length map.buckets
      → get_or map.buckets e 0 ≡ 0
      → Inserts map
          (hash_of bytes map key % length map.buckets)
          index
          (insert_bucket bytes map key index)
  unfolding insert_bucket
  insert_bucket_lem map key index e v h empty =
      let n = length map.buckets in
      let start = hash_of bytes map key % n in
      let i : start < n = mod-lt (hash_of bytes map key) (omega arith) in
      let (d, f, there) = ahead n start e i h in
      let first : bucket_for map (hash_of bytes map key) ≡ start =
        ap (λ (t : ℕ). bit_and (hash_of bytes map key) (t - 1)) v.power
        ∙ bit_and-mask v.exponent (hash_of bytes map key)
        ∙ ap (λ (t : ℕ). hash_of bytes map key % t) (sym v.power) in
      let free =
        free_bucket_lem map n d start v i f
          (ap (λ (t : ℕ). get_or map.buckets t 0) there ∙ empty) in
      rw (first, free.is)
        (set_bucket_lem map start index free.bucket free.empty free.bounded free.reached)
