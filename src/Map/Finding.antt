-- ===== src/Map/Finding.antt =====
-- `lor_map__find_bucket` ends, and finds the key that is there.
use Prim.Native.Nat.{bit_and}
use native.Mathlib.Nat.{mod-lt}
use liblor.Common.{
  ◌==◌, length, get_or, bit_and-mask, ℕ, zero, suc, ◌+◌, ◌-◌, ◌%◌, ◌<◌, ◌≡◌, sym, ap, subst, ◌∙◌,
  ◌≢◌, inl, inr, false, List, arith,
}
use liblor.Map.{Map, Probe, found, absent, lost, bucket_for, hash_of, probe, find_bucket}
use liblor.Map.Probing.{
  BucketsAreValid, around, around-next, start-around, ahead, Hits, Reaches, probe-round,
  empty_ahead,
}

module _ {K V : Type 0} (bytes : K → List ℕ) where
  -- What a search from `start` answers: a bucket of an equal key; or none, and then no bucket that
  -- the search comes to is one.
  unfoldable pub Searched : Map K V → K → ℕ → Probe → Type 0
  Searched map key start (found b) = Hits bytes map key b
  Searched map key start absent = (b : ℕ) → Reaches bytes map start b → ¬ (Hits bytes map key b)
  Searched map key start lost = ⊥

  -- A search that comes to `b` from a full bucket without a hit comes to it from the next.
  from_next :
      (map : Map K V) (key : K) (start b : ℕ)
      → start < length map.buckets
      → ¬ (Hits bytes map key start)
      → Reaches bytes map start b
      → Hits bytes map key b
      → Reaches bytes map ((start + 1) % length map.buckets) b
  from_next map key start b i miss r hit = go r.steps r.there r.full
    where
      go :
          (d : ℕ)
          → around (length map.buckets) start d ≡ b
          → ((d' : ℕ) → d' < d → get_or map.buckets (around (length map.buckets) start d') 0 ≢ 0)
          → Reaches bytes map ((start + 1) % length map.buckets) b
      go zero there full = absurd (
          miss (
            subst (λ (t : ℕ). Hits bytes map key t)
              (sym there ∙ start-around (length map.buckets) start i) hit))
      go (suc d) there full = record {
        steps = d;
        there = around-next (length map.buckets) start d i ∙ there;
        full = λ d' h e. full (suc d') (omega arith) (
            ap (λ (t : ℕ). get_or map.buckets t 0)
              (sym (around-next (length map.buckets) start d' i))
            ∙ e);
      }

  -- The empty bucket itself is no hit.
  stops_here :
      (map : Map K V) (key : K) (start : ℕ)
      → start < length map.buckets
      → get_or map.buckets start 0 ≡ 0
      → Searched map key start absent
  unfolding Searched
  stops_here map key start i empty b r hit = go r.steps r.there r.full
    where
      go :
          (d : ℕ)
          → around (length map.buckets) start d ≡ b
          → ((d' : ℕ) → d' < d → get_or map.buckets (around (length map.buckets) start d') 0 ≢ 0)
          → ⊥
      go zero there full =
          unfold Hits in
          hit.0 (
            ap (λ (t : ℕ). get_or map.buckets t 0)
              (sym there ∙ start-around (length map.buckets) start i)
            ∙ empty)
      go (suc d) there full = full 0 (omega arith) (
          ap (λ (t : ℕ). get_or map.buckets t 0) (start-around (length map.buckets) start i)
          ∙ empty)

  -- What the next bucket's search answers, this one's does.
  later_round :
      (map : Map K V) (key : K) (start : ℕ) (out : Probe)
      → start < length map.buckets
      → ¬ (Hits bytes map key start)
      → Searched map key ((start + 1) % length map.buckets) out
      → Searched map key start out
  unfolding Searched
  later_round map key start (found b) i miss h = h
  later_round map key start absent i miss h =
      λ b r hit. h b (from_next map key start b i miss r hit) hit
  later_round map key start lost i miss h = h

  probe_lem :
      (map : Map K V) (key : K) (fuel d start : ℕ)
      → BucketsAreValid map
      → start < length map.buckets
      → d < fuel
      → get_or map.buckets (around (length map.buckets) start d) 0 ≡ 0
      → Searched map key start (probe bytes fuel map key start)
  unfolding Searched
  probe_lem map key zero d start v i f e = absurd (omega arith)
  probe_lem map key (suc fuel) d start v i f e = elim (probe-round bytes map key fuel start v) [
    | inl (empty, out) ↦ rw out (stops_here map key start i empty)
    | inr (inl (hit, out)) ↦ rw out hit
    | inr (inr (full, miss, out)) ↦
        let n = length map.buckets in
        let (d', s, e') = empty_ahead bytes map start d i e full in
        let next : (start + 1) % n < n = mod-lt (start + 1) (omega arith) in
        rw out (
          later_round map key start _ i miss
            (probe_lem map key fuel d' ((start + 1) % n) v next (omega arith) e'))
  ]

  -- In a map whose number of buckets is a power of two, whose buckets hold no index beyond the
  -- entries, and of which a bucket is empty, the search for a key ends within as many rounds as
  -- there are buckets. It answers a bucket of an entry with an equal key, or none, and then no
  -- bucket that a search from the key's first bucket comes to without passing an empty one is of
  -- such an entry.
  pub find_bucket_lem :
      (map : Map K V) (key : K) (e : ℕ)
      → BucketsAreValid map
      → e < length map.buckets
      → get_or map.buckets e 0 ≡ 0
      → Searched map key (hash_of bytes map key % length map.buckets) (find_bucket bytes map key)
  unfolding find_bucket
  find_bucket_lem map key e v h empty =
      let n = length map.buckets in
      let start = hash_of bytes map key % n in
      let some_buckets : (n == 0) ≡ false = ground arith in
      let i : start < n = mod-lt (hash_of bytes map key) (omega arith) in
      let (d, f, there) = ahead n start e i h in
      let first : bucket_for map (hash_of bytes map key) ≡ start =
        ap (λ (t : ℕ). bit_and (hash_of bytes map key) (t - 1)) v.power
        ∙ bit_and-mask v.exponent (hash_of bytes map key)
        ∙ ap (λ (t : ℕ). hash_of bytes map key % t) (sym v.power) in
      rw (some_buckets, first)
        (probe_lem map key n d start v i f (ap (λ (t : ℕ). get_or map.buckets t 0) there ∙ empty))
