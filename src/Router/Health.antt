-- ===== src/Router/Health.antt =====
-- What `report_success` and `report_failure` do to the health records.
use cost_optimized_llm_infer.Common.{
  ℕ, true, false, not, some, Text, ◌≡◌, ◌≢◌, ◌↔◌, refl, sym, ap, ◌∙◌, Dict, lookup,
  lookup-insert_self, lookup-insert_ne, Double, ◌≺◌, IsOrdered, arith, Bool-cases, inl, inr,
}
use cost_optimized_llm_infer.Types.{ProviderHealth}
use cost_optimized_llm_infer.Router.{
  Router, is_down, min_F, find_health, failed, succeeded, report_failure, report_success,
  get_health,
}

module _ {F : Type 0} ⦃d : Double F⦄ where
  open d use {lit}

  -- After a report, the provider has the new record.
  pub lookup-report_failure :
      (now : ℕ) (p : Text) (r : Router F)
      → lookup p (report_failure now p r).health ≡ some (failed now p (find_health p r.health))
  unfolding report_failure
  lookup-report_failure now p r =
      lookup-insert_self p (failed now p (find_health p r.health)) r.health

  get_health-of :
      (p : Text) (r : Router F) (h : ProviderHealth F)
      → lookup p r.health ≡ some h
      → get_health p r ≡ h
  unfolding get_health
  get_health-of p r h e = rw (e, get_health) refl

  get_health-of_same :
      (p : Text) (r s : Router F)
      → lookup p r.health ≡ lookup p s.health
      → get_health p r ≡ get_health p s
  unfolding get_health
  get_health-of_same p r s e = rw (e, get_health) refl

  is_down-of :
      (p : Text) (health : Dict (ProviderHealth F)) (h : ProviderHealth F)
      → lookup p health ≡ some h
      → is_down p health ≡ not h.available
  unfolding is_down
  is_down-of p health h e = rw (e, is_down) refl

  get_health-report_failure :
      (now : ℕ) (p : Text) (r : Router F)
      → get_health p (report_failure now p r) ≡ failed now p (find_health p r.health)
  get_health-report_failure now p r =
      get_health-of p (report_failure now p r) (failed now p (find_health p r.health))
        (lookup-report_failure now p r)

  min_F-le : (o : IsOrdered F) (a b : F) → ¬ (a ≺ min_F a b)
  unfolding min_F
  min_F-le o a b = elim (Bool-cases (d.lt b a)) [
    | inl e ↦ rw e (λ less. o.lt_irrefl a (o.lt_trans a b a less e))
    | inr e ↦ rw e (o.lt_irrefl a)
  ]

  failed_lem :
      (o : IsOrdered F) (now : ℕ) (p : Text) (h : ProviderHealth F)
      → ¬ (lit 1 0 ≺ (failed now p h).error_rate)
        × (((failed now p h).available ≡ true)
            ↔ ((d.lt (lit 5 1) (failed now p h).error_rate ≡ false) × (h.available ≡ true)))
  unfolding failed
  failed_lem o now p h = (min_F-le o (lit 1 0) (d.add h.error_rate (lit 1 1)), ground arith)

  -- A failure leaves an error rate that is not above one, and the provider is available behind it
  -- exactly when it was and the new rate is not above one half.
  pub report_failure_lem :
      (o : IsOrdered F) (now : ℕ) (p : Text) (r : Router F)
      → let h = get_health p (report_failure now p r) in
        ¬ (lit 1 0 ≺ h.error_rate)
        × ((h.available ≡ true)
            ↔ ((d.lt (lit 5 1) h.error_rate ≡ false) × ((find_health p r.health).available ≡ true)))
  report_failure_lem o now p r =
      rw (get_health-report_failure now p r) (failed_lem o now p (find_health p r.health))

  -- A report about one provider leaves the records of the others.
  pub report_others :
      (now : ℕ) (p q : Text) (ms : F) (r : Router F)
      → p ≢ q
      → (get_health q (report_failure now p r) ≡ get_health q r)
        × (get_health q (report_success now p ms r) ≡ get_health q r)
  unfolding report_failure report_success
  report_others now p q ms r ne = (
    get_health-of_same q (report_failure now p r) r
        (lookup-insert_ne q p (failed now p (find_health p r.health)) r.health ne),
    get_health-of_same q (report_success now p ms r) r
        (lookup-insert_ne q p (succeeded now p ms (find_health p r.health)) r.health ne),
  )

  is_down-report_failure :
      (now : ℕ) (p : Text) (r : Router F)
      → (get_health p (report_failure now p r)).available ≡ false
      → is_down p (report_failure now p r).health ≡ true
  is_down-report_failure now p r e =
      is_down-of p (report_failure now p r).health (failed now p (find_health p r.health))
        (lookup-report_failure now p r)
      ∙ ap (λ h. not h.available) (sym (get_health-report_failure now p r))
      ∙ ap not e

  -- One success makes a provider available again, whatever its error rate.
  pub is_down-report_success :
      (now : ℕ) (p : Text) (ms : F) (r : Router F)
      → is_down p (report_success now p ms r).health ≡ false
  unfolding report_success succeeded
  is_down-report_success now p ms r =
      is_down-of p (report_success now p ms r).health (succeeded now p ms (find_health p r.health))
        (lookup-insert_self p (succeeded now p ms (find_health p r.health)) r.health)

  pub down_by_rate :
      (o : IsOrdered F) (now : ℕ) (p : Text) (r : Router F)
      → lit 5 1 ≺ (get_health p (report_failure now p r)).error_rate
      → is_down p (report_failure now p r).health ≡ true
  down_by_rate o now p r high =
      is_down-report_failure now p r (ground (arith, (report_failure_lem o now p r).1))
