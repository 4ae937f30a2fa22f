-- ===== src/Router/Turns.antt =====
-- The order in which round robin takes the ready providers.
use native.Mathlib.Nat.{mul-add-mod_self_left, mod-eq_of_lt}
use cost_optimized_llm_infer.Common.{
  ℕ, zero, suc, ◌+◌, ◌*◌, ◌%◌, ◌^◌, ◌≤◌, ◌<◌, true, List, [], ◌∷◌, ◌++◌, append_assoc, map, Option,
  none, some, Text, ltb, ◌≡◌, refl, sym, ap, ◌∙◌, Double, length, length-append, get_elem?, keep,
  arith,
}
use cost_optimized_llm_infer.Types.{round_robin}
use cost_optimized_llm_infer.Config.{ProviderConfig, GatewayConfig}
use cost_optimized_llm_infer.Router.{Router, first_model, is_ready}
use cost_optimized_llm_infer.Router.Strategies.{index_of, decision, route_round_robin}

-- Below the sign bit the index is the remainder.
index_of_turn : (n q j : ℕ) → j < n → n * q + n ≤ 2 ^ 31 → index_of (n * q + j) n ≡ j
unfolding index_of
index_of_turn n q j lt small =
    rw (below (n * q) n j lt small) (mul-add-mod_self_left n q j ∙ mod-eq_of_lt lt)
  where
    below : (b m i : ℕ) → i < m → b + m ≤ 2 ^ 31 → ltb (b + i) (2 ^ 31) ≡ true
    below b m i l h = ground arith

get_elem?-append :
    {A : Type 0} (front rest : List A) (x : A)
    → get_elem? (front ++ x ∷ rest) (length front) ≡ some x
get_elem?-append [] rest x = refl
get_elem?-append (y ∷ front) rest x = get_elem?-append front rest x

module _ {F : Type 0} ⦃d : Double F⦄ where
  -- The providers of so many requests in a row, and nothing in between.
  unfoldable pub turns : ℕ → GatewayConfig F → Router F → Option (List Text)
  turns zero cfg r = some []
  turns (suc k) cfg r = elim (route_round_robin cfg r) [
    | none ↦ none
    | some (dec, r') ↦ elim (turns k cfg r') [
      | none ↦ none
      | some names ↦ some (dec.provider ∷ names)
    ]
  ]

  route_round_robin_turn :
      (cfg : GatewayConfig F) (r : Router F) (ready : List ProviderConfig) (x : ProviderConfig)
      → keep (is_ready r.health) cfg.providers ≡ ready
      → get_elem? ready (index_of r.round_robin_idx (length ready)) ≡ some x
      → route_round_robin cfg r
        ≡ some (
          decision x.name (first_model x.models) round_robin [],
          record r { round_robin_idx = (r.round_robin_idx + 1) % 2 ^ 32 },
        )
  unfolding route_round_robin
  route_round_robin_turn cfg r [] x e found = cc
  route_round_robin_turn cfg r (pc ∷ pcs) x e found =
      rw (e, route_round_robin) (rw (found, route_round_robin) refl)

  turns_from :
      (q : ℕ) (cfg : GatewayConfig F) (r : Router F) (ready front rest : List ProviderConfig)
      → keep (is_ready r.health) cfg.providers ≡ ready
      → ready ≡ front ++ rest
      → r.round_robin_idx ≡ length ready * q + length front
      → length ready * q + length ready ≤ 2 ^ 31
      → turns (length rest) cfg r ≡ some (map (λ pc. pc.name) rest)
  unfolding turns
  turns_from q cfg r ready front [] e split idx small = refl
  turns_from q cfg r ready front (x ∷ rest) e split idx small =
      let size : length ready ≡ length front + suc (length rest) =
        ap (λ l. length l) split ∙ length-append front (x ∷ rest) in
      let here : index_of r.round_robin_idx (length ready) ≡ length front =
        ap (λ i. index_of i (length ready)) idx
        ∙ index_of_turn (length ready) q (length front) (omega arith) small in
      let found : get_elem? ready (index_of r.round_robin_idx (length ready)) ≡ some x =
        ap (λ i. get_elem? ready i) here
        ∙ ap (λ l. get_elem? l (length front)) split
        ∙ get_elem?-append front rest x in
      let r' = record r { round_robin_idx = (r.round_robin_idx + 1) % 2 ^ 32 } in
      let later : turns (length rest) cfg r' ≡ some (map (λ pc. pc.name) rest) =
        turns_from q cfg r' ready (front ++ x ∷ []) rest e
          (split ∙ sym (append_assoc front (x ∷ []) rest))
          (next (length ready * q) (length ready) (length front) (length rest) size small idx
            ∙ ap (λ i. length ready * q + i) (sym (length-append front (x ∷ []) ∙ omega arith)))
          small in
      rw (route_round_robin_turn cfg r ready x e found, turns) (rw (later, turns) refl)
    where
      next :
          (b n i k : ℕ)
          → n ≡ i + suc k
          → b + n ≤ 2 ^ 31
          → r.round_robin_idx ≡ b + i
          → (r.round_robin_idx + 1) % 2 ^ 32 ≡ b + (i + 1)
      next b n i k size' small' idx' = omega arith

  -- When the counter is at a multiple of the number of ready providers and does not reach the sign
  -- bit, that many requests in a row go to the ready providers, each once and in their order.
  pub turns_lem :
      (q : ℕ) (cfg : GatewayConfig F) (r : Router F) (ready : List ProviderConfig)
      → keep (is_ready r.health) cfg.providers ≡ ready
      → r.round_robin_idx ≡ length ready * q
      → length ready * q + length ready ≤ 2 ^ 31
      → turns (length ready) cfg r ≡ some (map (λ pc. pc.name) ready)
  turns_lem q cfg r ready e idx small =
      turns_from q cfg r ready [] ready e refl (idx ∙ plus_zero (length ready * q)) small
    where
      plus_zero : (n : ℕ) → n ≡ n + 0
      plus_zero n = omega arith
