-- ===== src/Metrics/Percentile.antt =====
-- The 99th percentile that src/utils/metrics.cpp reports, against the latencies it is taken from.
use Prim.Native.Nat.{min}
use mathlib.Core.Path.{subst}
use cost_optimized_llm_infer.Common.{
  ℕ, ◌*◌, ◌-◌, ◌/◌, ◌≤◌, true, List, [], ◌∷◌, ◌≡◌, ◌≢◌, refl, inl, inr, some, length, length-sort,
  sort, sort-IsSorted, keep, length-keep-sort, keep_before-get_elem?, keep_after-get_elem?,
  IsWeakOrder, All, Bool-cases, List-cases, pos, Double, IsOrdered, arith,
}
use cost_optimized_llm_infer.Metrics.{Metrics, Snapshot, p99, snapshot}
use cost_optimized_llm_infer.Metrics.Latencies.{get_elem?-some}

module _ {F : Type 0} ⦃d : Double F⦄ (o : IsOrdered F) where
  abbrev IsNumber : F → Type 0
  IsNumber x = d.eq x x ≡ true

  lt-IsWeakOrder : IsWeakOrder d.lt IsNumber
  lt-IsWeakOrder = record {
    asym = λ a b h. elim (Bool-cases (d.lt b a)) [
      | inl e ↦ absurd (o.lt_irrefl a (o.lt_trans a b a h e))
      | inr e ↦ e
    ];
    not_before_trans = λ a b c number not_c not_b. elim (Bool-cases (d.lt c a)) [
      | inl e ↦ elim (o.lt_cotrans c a b number e) [ inl low ↦ absurd cc | inr high ↦ absurd cc ]
      | inr e ↦ e
    ];
  }

  -- A value that a hundredth of a list at most exceeds, and of which at most ninety-nine hundredths
  -- fall short.
  pub record IsPercentile (xs : List F) (p : F) : Type 0 where
    pub above : 100 * length (keep (λ z. d.lt p z) xs) ≤ length xs
    pub below : 100 * length (keep (λ z. d.lt z p) xs) ≤ 99 * length xs

  p99-IsPercentile :
      (x : F) (xs : List F)
      → All IsNumber (x ∷ xs)
      → d.trunc (d.mul (d.of_int (pos (length (x ∷ xs)))) (d.lit 99 2)) ≡ 99 * length (x ∷ xs) / 100
      → (p : F) × (p99 (x ∷ xs) ≡ some p) × IsPercentile (x ∷ xs) p
  unfolding p99
  p99-IsPercentile x xs numbers index =
      let sorted = sort d.lt (x ∷ xs) in
      let n = length (x ∷ xs) in
      let size = length-sort d.lt (x ∷ xs) in
      let i =
        min (d.trunc (d.mul (d.of_int (pos (length sorted))) (d.lit 99 2))) (length sorted - 1) in
      let place : i ≡ min (99 * n / 100) (n - 1) = rw (size, index) refl in
      let (p, found) = get_elem?-some sorted i (omega (arith, size)) in
      let order = sort-IsSorted d.lt IsNumber lt-IsWeakOrder (x ∷ xs) numbers in
      let few_below = keep_before-get_elem? d.lt IsNumber lt-IsWeakOrder sorted i p order found in
      let few_above = keep_after-get_elem? d.lt IsNumber lt-IsWeakOrder sorted i p order found in
      (
        p,
        found,
        record {
          above =
              omega (arith, length-keep-sort d.lt (λ z. d.lt p z) (x ∷ xs), few_above, place, size);
          below = omega (arith, length-keep-sort d.lt (λ z. d.lt z p) (x ∷ xs), few_below, place);
        },
      )

  -- The comparisons of `double` have the laws of IEEE 754. A snapshot of kept latencies, none of
  -- them NaN, at least one, and whose number times 0.99 is cut to the whole part of 99 hundredths
  -- of it, reports as 99th percentile a value that at most a hundredth of them exceeds and of which
  -- at most ninety-nine hundredths fall short.
  pub snapshot-IsPercentile :
      (now : ℕ) (m : Metrics F)
      → m.latencies ≢ []
      → All IsNumber m.latencies
      → d.trunc (d.mul (d.of_int (pos (length m.latencies))) (d.lit 99 2))
        ≡ 99 * length m.latencies / 100
      → (s : Snapshot F) × (snapshot now m ≡ some s) × IsPercentile m.latencies s.p99_latency_ms
  unfolding snapshot
  snapshot-IsPercentile now m some_kept numbers index = elim (List-cases m.latencies) [
    | inl e ↦ absurd (some_kept e)
    | inr (x, xs, e) ↦
        let (p, found, is) = p99-IsPercentile x xs (subst (All IsNumber) e numbers) (
          subst
            (λ l. d.trunc (d.mul (d.of_int (pos (length l))) (d.lit 99 2)) ≡ 99 * length l / 100) e
            index) in
        rw (e, snapshot) (rw (found, snapshot) (_, refl, is))
  ]
