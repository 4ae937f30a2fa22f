-- ===== src/Metrics/Latencies.antt =====
-- The bounded list of latencies, and the percentile that is read from it.
use mathlib.Core.Path.{subst}
use cost_optimized_llm_infer.Common.{
  ℕ, zero, suc, ◌≤◌, ◌<◌, true, false, List, [], ◌∷◌, ◌++◌, append_assoc, append-nil, foldl, ◌≡◌,
  ◌⊎◌, inl, inr, refl, sym, ap, ◌∙◌, some, length, length-append, length-drop, drop, take,
  take-append-drop, get_elem?, sort, length-sort, ltb, Double, arith, Bool-cases, List-cases,
}
use cost_optimized_llm_infer.Metrics.{
  Metrics, Snapshot, push_latency, observe_latency, p99, snapshot,
}

full_lt : (n : ℕ) → ltb 10_000 n ≡ true → 10_000 < n
full_lt n h = ground arith

room_le : (n : ℕ) → ltb 10_000 n ≡ false → n ≤ 10_000
room_le n h = ground arith

module _ {F : Type 0} where
  -- What is kept of a series of observations: never more than ten thousand, always the end of the
  -- series, and either all of it or at least five thousand and one.
  pub record IsRecent (all kept : List F) : Type 0 where
    pub forgotten : List F
    pub split : forgotten ++ kept ≡ all
    pub bounded : length kept ≤ 10_000
    pub enough : (forgotten ≡ []) ⊎ (5001 ≤ length kept)

  push_latency-IsRecent :
      (ms : F) (all kept : List F)
      → IsRecent all kept
      → IsRecent (all ++ ms ∷ []) (push_latency ms kept)
  unfolding push_latency
  push_latency-IsRecent ms all kept r =
      let more = kept ++ ms ∷ [] in
      let one_more = length-append kept (ms ∷ []) in
      let whole : r.forgotten ++ more ≡ all ++ ms ∷ [] =
        sym (append_assoc r.forgotten kept (ms ∷ [])) ∙ ap (λ l. l ++ ms ∷ []) r.split in
      elim (Bool-cases (ltb 10_000 (length more))) [
        | inl full ↦ rw full (record {
          forgotten = r.forgotten ++ take 5000 more;
          split =
              append_assoc r.forgotten (take 5000 more) (drop 5000 more)
              ∙ ap (λ l. r.forgotten ++ l) (take-append-drop 5000 more)
              ∙ whole;
          bounded = omega (arith, r.bounded, length-drop 5000 more, one_more);
          enough = inr (omega (arith, length-drop 5000 more, full_lt (length more) full));
        })
        | inr room ↦ rw room (record {
          forgotten = r.forgotten;
          split = whole;
          bounded = room_le (length more) room;
          enough = elim r.enough [
            | inl none_gone ↦ inl none_gone
            | inr long ↦ inr (omega (arith, one_more))
          ];
        })
      ]

  -- After a series of observations the latencies kept are the end of everything observed: at most
  -- ten thousand, and either all or at least five thousand and one; if so before the series.
  pub latencies-IsRecent :
      (all observed : List F) (m : Metrics F)
      → IsRecent all m.latencies
      → IsRecent (all ++ observed) (foldl (λ s x. observe_latency x s) m observed).latencies
  unfolding observe_latency
  latencies-IsRecent all [] m r = rw (append-nil all) r
  latencies-IsRecent all (x ∷ observed) m r =
      subst (λ l. IsRecent l (foldl (λ s x. observe_latency x s) m (x ∷ observed)).latencies)
        (append_assoc all (x ∷ []) observed)
        (latencies-IsRecent (all ++ x ∷ []) observed (observe_latency x m)
          (push_latency-IsRecent x all m.latencies r))

  pub get_elem?-some : (xs : List F) (i : ℕ) → i < length xs → (x : F) × (get_elem? xs i ≡ some x)
  get_elem?-some [] i h = absurd (omega arith)
  get_elem?-some (x ∷ xs) zero h = (x, refl)
  get_elem?-some (x ∷ xs) (suc i) h = get_elem?-some xs i (omega arith)

module _ {F : Type 0} ⦃d : Double F⦄ where
  p99_total : (x : F) (xs : List F) → (p : F) × (p99 (x ∷ xs) ≡ some p)
  unfolding p99
  p99_total x xs = get_elem?-some (sort d.lt (x ∷ xs)) _ (omega (arith, length-sort d.lt (x ∷ xs)))

  -- Whatever the arithmetic of `double` makes of the index, a snapshot reads no observation out of
  -- range.
  pub snapshot_total : (now : ℕ) (m : Metrics F) → (s : Snapshot F) × (snapshot now m ≡ some s)
  unfolding snapshot
  snapshot_total now m = elim (List-cases m.latencies) [
    | inl e ↦ rw (e, snapshot) (_, refl)
    | inr (x, xs, e) ↦
        let (p, found) = p99_total x xs in rw (e, snapshot) (rw (found, snapshot) (_, refl))
  ]
