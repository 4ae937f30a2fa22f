-- ===== src/Cache/Survival.antt =====
-- How long a stored response stays in the cache of include/cache.h while other calls come in.
use mathlib.Core.Option.{some-injective}
use cost_optimized_llm_infer.Common.{
  ℕ, suc, ◌+◌, ◌<◌, ◌≤◌, Bool, true, false, List, [], ◌∷◌, Option, some, Text, text_dec, ◌≡◌, ◌≢◌,
  refl, sym, ap, ◌∙◌, take, length, ℤ, pos, ◌+ℤ◌, ◌*ℤ◌, ◌≤ℤ◌, Bool-cases, Option-cases, All, inl,
  inr, arith, Double,
}
use cost_optimized_llm_infer.Types.{ChatRequest, ChatResponse, second}
use cost_optimized_llm_infer.Cache.{Cache, CacheConfig, get, put, make_key, to_size_t}
use cost_optimized_llm_infer.Cache.Invariant.{IsValid}
use cost_optimized_llm_infer.Cache.Reads.{read_by_key, get-read_by_key}
use cost_optimized_llm_infer.Cache.Recent.{
  Item, Access, looked, wrote, emptied, find_item, is_over, read_item, reply, stored_item,
  recent_step, recent_run,
}
use cost_optimized_llm_infer.Cache.Traces.{
  accesses, items-put, items-read_by_key, accesses-recent_run,
}
use cost_optimized_llm_infer.Cache.Items.{if_stored, items}
use cost_optimized_llm_infer.Cache.Places.{
  key-find_item, find_item_front, find_item_behind, find_item-take_le, find_item-take_all,
  find_item-remove_item, find_item-others_kept,
}

module _ {F : Type 0} ⦃d : Double F⦄ where
  open d use {of_int}

  find_item-read_item :
      (k j : Text) (on : Bool) (req : ChatRequest F) (checked n : ℕ) (xs : List (Item F))
      (x : Item F)
      → is_over checked x ≡ false
      → find_item k (take n xs) ≡ some x
      → find_item k (take (suc n) (read_item on j req checked xs).0) ≡ some x
  unfolding read_item
  find_item-read_item k j false req checked n xs x live h =
      find_item-take_le k n (suc n) xs x (omega arith) h
  find_item-read_item k j true req checked n xs x live h = elim (Option-cases (find_item j xs)) [
    | inl e ↦ rw (e, read_item) (find_item-take_le k n (suc n) xs x (omega arith) h)
    | inr (y, e) ↦ elim (text_dec j k) [
      | yes p ↦
          let same : y ≡ x =
            some-injective y x
              (sym e ∙ ap (λ i. find_item i xs) p ∙ find_item-take_all k n xs x h) in
          rw (e, ap (is_over checked) same ∙ live, read_item)
            (find_item_front k y x _ same (key-find_item k xs x (find_item-take_all k n xs x h)))
      | no p ↦ elim (Bool-cases (is_over checked y)) [
        | inl over ↦
            rw (e, over, read_item)
              (find_item-take_le k n (suc n) _ x (omega arith)
                (find_item-remove_item k j n xs x p h))
        | inr here ↦
            rw (e, here, read_item)
              (find_item_behind k y x _ (λ q. p (sym (key-find_item j xs y e) ∙ q))
                (find_item-remove_item k j n xs x p h))
      ]
    ]
  ]

  module _ (hash : Text → ℕ) (cfg : CacheConfig) where
    -- A call that neither replaces the response under a key nor finds it past its deadline.
    abbrev pub Leaves : Text → ℤ → Access F → Type 0
    Leaves k deadline (looked req checked accessed) = pos checked ≤ℤ deadline
    Leaves k deadline (wrote req resp tidied now) =
        (make_key hash cfg req ≢ k) × (pos tidied ≤ℤ deadline)
    Leaves k deadline emptied = ⊥

    recent_step-find_item :
        (a : Access F) (k : Text) (n : ℕ) (xs : List (Item F)) (x : Item F)
        → n < to_size_t cfg.max_entries
        → Leaves k x.deadline a
        → find_item k (take n xs) ≡ some x
        → find_item k (take (suc n) (recent_step hash cfg a xs).0) ≡ some x
    unfolding recent_step
    recent_step-find_item (looked req checked accessed) k n xs x lt ok h =
        find_item-read_item k (make_key hash cfg req) cfg.enabled req checked n xs x (ground arith)
          h
    recent_step-find_item (wrote req resp tidied now) k n xs x lt ok h =
        let stay = find_item-take_le k n (suc n) xs x (omega arith) h in
        let key = make_key hash cfg req in
        elim (Bool-cases cfg.enabled) [
          | inl on ↦ elim (Bool-cases req.stream) [
            | inl streamed ↦ ground arith
            | inr plain ↦
                let left = find_item_behind k (stored_item hash cfg req resp now) x _ ok.0 (
                  find_item-others_kept k key (to_size_t cfg.max_entries) tidied n xs x ok.0 lt
                    (ground arith) h) in
                sym (
                  ap
                    (λ (p : List (Item F) × Option (ChatResponse F)).
                      find_item k (take (suc n) p.0))
                    (if_stored cfg.enabled req.stream _ _ on plain))
                ∙ left
          ]
          | inr off ↦ ground arith
        ]
    recent_step-find_item emptied k n xs x lt ok h = absurd ok

    recent_run-find_item :
        (calls : List (Access F)) (k : Text) (n : ℕ) (xs : List (Item F)) (x : Item F)
        → n + length calls ≤ to_size_t cfg.max_entries
        → All (Leaves k x.deadline) calls
        → find_item k (take n xs) ≡ some x
        → find_item k (take (n + length calls) (recent_run hash cfg calls xs).0) ≡ some x
    unfolding recent_run
    recent_run-find_item [] k n xs x le ok h = find_item-take_le k n (n + 0) xs x (omega arith) h
    recent_run-find_item (a ∷ rest) k n xs x le ok h =
        let later =
          recent_run-find_item rest k (suc n) (recent_step hash cfg a xs).0 x (omega arith) ok.1
            (recent_step-find_item a k n xs x (omega arith) ok.0 h) in
        find_item-take_le k (suc n + length rest) (n + suc (length rest)) _ x (omega arith) later

    -- A read of a current item.
    get_current :
        (again : ChatRequest F) (checked accessed : ℕ) (c : Cache F) (x : Item F)
        → cfg.enabled ≡ true
        → IsValid c
        → find_item (make_key hash cfg again) (items c) ≡ some x
        → is_over checked x ≡ false
        → (c' : Cache F) × (get hash cfg again checked accessed c ≡ some (c', some (reply again x)))
    unfolding read_item
    get_current again checked accessed c x on v found live =
        let key = make_key hash cfg again in
        let answered : (read_item true key again checked (items c)).1 ≡ some (reply again x) =
          rw (found, live, read_item) refl in
        let out = read_by_key cfg.enabled key again checked accessed c in
        (
          out.0,
          get-read_by_key hash cfg again checked accessed c v
              ∙ ap (λ r. some (out.0, r))
                  (ap (λ p. p.1) (items-read_by_key cfg.enabled key again checked accessed c)
                    ∙ ap (λ b. (read_item b key again checked (items c)).1) on
                    ∙ answered),
        )

  -- A stored response outlives the other calls: an enabled cache with room for `max_entries`
  -- entries, whose index and list agree, stores a response to a request that is no stream, and then
  -- takes fewer than `max_entries` calls of which none clears it, stores under the same key or
  -- reads the clock past the response's time to live. It answers a request with that key within
  -- that time with the response, marked as cached, with the new request's id and no latency. The
  -- fuel is beyond the size of the cache and its limit.
  pub get-accesses-put :
      (hash : Text → ℕ) (fuel : ℕ) (cfg : CacheConfig) (req again : ChatRequest F)
      (resp : ChatResponse F) (tidied stored checked accessed : ℕ) (calls : List (Access F))
      (c : Cache F)
      → cfg.enabled ≡ true
      → req.stream ≡ false
      → length calls < to_size_t cfg.max_entries
      → to_size_t cfg.max_entries < fuel
      → length c.entries < fuel
      → IsValid c
      → All
          (Leaves hash cfg (make_key hash cfg req) (pos stored +ℤ cfg.ttl_seconds *ℤ pos second))
          calls
      → make_key hash cfg again ≡ make_key hash cfg req
      → pos checked ≤ℤ pos stored +ℤ cfg.ttl_seconds *ℤ pos second
      → (c1 c2 c3 : Cache F) × (answers : List (Option (ChatResponse F))) × (put hash fuel cfg req
            resp tidied stored c
          ≡ some c1)
        × (accesses hash fuel cfg calls c1 ≡ some (c2, answers))
        × (get hash cfg again checked accessed c2
            ≡ some (
              c3,
              some (record resp {
                from_cache = true;
                request_id = again.request_id;
                latency_ms = of_int (pos 0);
              }),
            ))
  unfolding recent_step
  get-accesses-put hash fuel cfg req again resp tidied stored checked accessed calls c on plain room
        most few v ok k live =
      let key = make_key hash cfg again in
      let item = stored_item hash cfg req resp stored in
      let (c1, run1, items1, few1, v1) =
        items-put hash fuel cfg req resp tidied stored c on plain (omega arith) most few v in
      let (c2, run2, items2, _, v2) =
        accesses-recent_run hash fuel cfg calls c1 (omega arith) most few1 v1 in
      let first : find_item (make_key hash cfg req) (take 1 (items c1)) ≡ some item =
        ap (λ xs. find_item (make_key hash cfg req) (take 1 xs)) items1
        ∙ find_item_front (make_key hash cfg req) item item _ refl refl in
      let kept : find_item key (items c2) ≡ some item =
        ap (λ i. find_item i (items c2)) k
        ∙ ap (find_item (make_key hash cfg req)) items2
        ∙ find_item-take_all (make_key hash cfg req) (1 + length calls) _ item (
            recent_run-find_item hash cfg calls (make_key hash cfg req) 1 (items c1) item
              (omega arith) ok first) in
      let (c3, run3) =
        get_current hash cfg again checked accessed c2 item on v2 kept (ground arith) in
      (c1, c2, c3, _, run1, run2, run3)
