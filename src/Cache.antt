-- ===== src/Cache.antt =====
-- include/cache.h and src/cache.cpp. The hash function `std::hash<std::string>` is a parameter; a
-- reading of the steady clock is an argument of the operation that reads it.
pub mod Entries
pub mod Invariant
pub mod Expiry
pub mod Room
pub mod Reads
pub mod Writes
pub mod Store
pub mod Keys
pub mod Recent
pub mod Items
pub mod Traces
pub mod Places
pub mod Survival
use mathlib.Core.Option
use cost_optimized_llm_infer.Common.{
  ℕ, zero, suc, ◌+◌, ◌-◌, ◌/◌, ◌%◌, ◌^◌, Bool, true, List, [], ◌∷◌, ◌++◌, Option, none, some, ite,
  Text, codes, ℕ_discrete, ℤ, pos, negsuc, ◌+ℤ◌, ◌*ℤ◌, ltb_ℤ, Dict, lookup, insert, erase, Double,
  show_ℕ, show_ℤ, length, ltb, leb, if◌then◌else◌,
}
use cost_optimized_llm_infer.Types.{Message, ChatRequest, ChatResponse, second}

pub record CacheConfig : Type 0 where
  pub enabled : Bool
  pub ttl_seconds : ℤ
  pub max_entries : ℤ
  pub match_params : Bool

-- `node` is the identity of the list node, which is what an iterator holds.
pub record CacheEntry (F : Type 0) : Type 0 where
  pub node : ℕ
  pub key : Text
  pub response : ChatResponse F
  pub expires_at : ℤ
  pub last_accessed : ℕ

-- `entries` is the list, most recent first; `index` maps a key to a node of it.
pub record Cache (F : Type 0) : Type 0 where
  pub entries : List (CacheEntry F)
  pub index : Dict ℕ
  pub max_size : ℕ
  pub ttl_seconds : ℤ
  pub hits : ℕ
  pub misses : ℕ
  pub evictions : ℕ
  pub savings_usd : F
  pub next_node : ℕ

pub record CacheStats (F : Type 0) : Type 0 where
  pub entries : ℕ
  pub max_size : ℕ
  pub hits : ℕ
  pub misses : ℕ
  pub evictions : ℕ
  pub savings_usd : F

-- The conversion of an `int` to `size_t`.
unfoldable pub to_size_t : ℤ → ℕ
to_size_t (pos n) = n
to_size_t (negsuc n) = 2 ^ 64 - suc n

-- `++` on a `uint64_t`.
unfoldable pub inc64 : ℕ → ℕ
inc64 n = (n + 1) % 2 ^ 64

-- The loop of `make_key` over the messages.
unfoldable pub message_keys : List Message → Text
message_keys [] = []
message_keys (m ∷ ms) = m.role ++ (codes ":" ++ (m.content ++ (codes "|" ++ message_keys ms)))

module _ {F : Type 0} where
  -- The entry that an iterator points to; `none` would be a dangling iterator.
  unfoldable pub find_node : ℕ → List (CacheEntry F) → Option (CacheEntry F)
  find_node n [] = none
  find_node n (e ∷ es) = ite (ℕ_discrete e.node n) (some e) (find_node n es)

  -- `entries_.erase(it)`
  unfoldable pub remove_node : ℕ → List (CacheEntry F) → List (CacheEntry F)
  remove_node n [] = []
  remove_node n (e ∷ es) = ite (ℕ_discrete e.node n) es (e ∷ remove_node n es)

  unfoldable pub is_expired : ℕ → CacheEntry F → Bool
  is_expired now e = ltb_ℤ e.expires_at (pos now)

  unfoldable pub clear : Cache F → Cache F
  clear c = record c { entries = []; index = [] }

  unfoldable pub size : Cache F → ℕ
  size c = length c.entries

  unfoldable pub get_stats : Cache F → CacheStats F
  get_stats c = record {
    entries = length c.entries;
    max_size = c.max_size;
    hits = c.hits;
    misses = c.misses;
    evictions = c.evictions;
    savings_usd = c.savings_usd;
  }

  -- `entries_.back()`, if there is one, and the list without it.
  unfoldable pub pop_back : List (CacheEntry F) → Option (CacheEntry F × List (CacheEntry F))
  pop_back [] = none
  pop_back (e ∷ es) = elim (pop_back es) [
    | none ↦ some (e, [])
    | some (last, rest) ↦ some (last, e ∷ rest)
  ]

  unfoldable pub evict_lru : Cache F → Cache F
  evict_lru c = elim (pop_back c.entries) [
    | none ↦ c
    | some (back, rest) ↦ record c {
      entries = rest;
      index = erase back.key c.index;
      evictions = inc64 c.evictions;
    }
  ]

  -- `while (entries_.size() >= max_size_) evict_lru();`, where `none` means that the fuel ran out.
  unfoldable pub make_room : ℕ → Cache F → Option (Cache F)
  make_room zero c = none
  make_room (suc fuel) c =
      let rest = make_room fuel (evict_lru c) in
      if leb c.max_size (length c.entries) then rest else some c

  -- The loop of `evict_expired` goes from the back of the list to its front.
  unfoldable pub expire_from_back : ℕ → List (CacheEntry F) → Cache F → Cache F
  expire_from_back now [] c = record c { entries = [] }
  expire_from_back now (e ∷ es) c =
      let c' = expire_from_back now es c in
      if is_expired now e
      then record c' { index = erase e.key c'.index; evictions = inc64 c'.evictions }
      else record c' { entries = e ∷ c'.entries }

  unfoldable pub evict_expired : ℕ → Cache F → Cache F
  evict_expired now c = expire_from_back now c.entries c

  -- An entry under the same key is dropped before the new one is stored.
  unfoldable pub drop_key : Text → Cache F → Cache F
  drop_key key c = elim (lookup key c.index) [
    | none ↦ c
    | some it ↦ record c { entries = remove_node it c.entries; index = erase key c.index }
  ]

  -- `if (entries_.size() > max_size_ / 2) evict_expired();`
  unfoldable pub tidy : ℕ → Cache F → Cache F
  tidy now c = if ltb (c.max_size / 2) (length c.entries) then evict_expired now c else c

  unfoldable pub push_entry : Text → ChatResponse F → ℕ → Cache F → Cache F
  push_entry key resp now c = record c {
    entries =
        record {
          node = c.next_node;
          key = key;
          response = resp;
          expires_at = pos now +ℤ c.ttl_seconds *ℤ pos second;
          last_accessed = now;
        }
        ∷ c.entries;
    index = insert key c.next_node c.index;
    next_node = c.next_node + 1;
  }

module _ {F : Type 0} ⦃d : Double F⦄ where
  open d use {to_string, of_int, add, div}

  unfoldable pub init : CacheConfig → Cache F
  init cfg = record {
    entries = [];
    index = [];
    max_size = to_size_t cfg.max_entries;
    ttl_seconds = cfg.ttl_seconds;
    hits = 0;
    misses = 0;
    evictions = 0;
    savings_usd = of_int (pos 0);
    next_node = 0;
  }

  -- The text that `make_key` hashes.
  unfoldable pub key_text : CacheConfig → ChatRequest F → Text
  unfolding message_keys
  key_text cfg req =
      req.model
      ++ (codes "|"
          ++ (message_keys req.messages
              ++ (if cfg.match_params
                  then codes "t="
                    ++ (to_string req.temperature
                        ++ (codes "|" ++ (codes "m=" ++ show_ℤ req.max_tokens)))
                  else [])))

  -- `static_cast<double>(hits_) / total`; the sum is a `uint64_t`.
  unfoldable pub hit_rate : Cache F → F
  hit_rate c =
      let total = (c.hits + c.misses) % 2 ^ 64 in
      if ltb 0 total then div (of_int (pos c.hits)) (of_int (pos total)) else of_int (pos 0)

  module _ (hash : Text → ℕ) where
    unfoldable pub make_key : CacheConfig → ChatRequest F → Text
    make_key cfg req = show_ℕ (hash (key_text cfg req))

    -- `checked` and `accessed` are the two readings of the clock. `none` is a dangling iterator.
    unfoldable pub get :
        CacheConfig
        → ChatRequest F
        → (checked accessed : ℕ) → Cache F
        → Option (Cache F × Option (ChatResponse F))
    get cfg req checked accessed c =
        if cfg.enabled
        then elim (lookup key c.index) [
          | none ↦ some (record c { misses = inc64 c.misses }, none)
          | some it ↦ elim (find_node it c.entries) [
            | none ↦ none
            | some e ↦
                if is_expired checked e
                then some (
                  record c {
                    entries = remove_node it c.entries;
                    index = erase key c.index;
                    misses = inc64 c.misses;
                  },
                  none,
                )
                else some (
                  record c {
                    entries = record e { last_accessed = accessed } ∷ remove_node it c.entries;
                    hits = inc64 c.hits;
                    savings_usd = add c.savings_usd e.response.cost_usd;
                  },
                  some (record (e.response) {
                    from_cache = true;
                    request_id = req.request_id;
                    latency_ms = of_int (pos 0);
                  }),
                )
          ]
        ]
        else some (record c { misses = inc64 c.misses }, none)
      where
        key : Text
        key = make_key cfg req

    -- `tidied` and `stored` are the two readings of the clock; `none` means that the loop that
    -- makes room has not ended within `fuel` rounds.
    unfoldable pub put :
        ℕ
        → CacheConfig
        → ChatRequest F
        → ChatResponse F
        → (tidied stored : ℕ) → Cache F
        → Option (Cache F)
    put fuel cfg req resp tidied stored c =
        if cfg.enabled
        then if req.stream
          then some c
          else Option.map (λ c'. push_entry key resp stored (tidy tidied c'))
              (make_room fuel (
                drop_key key (record c {
                  max_size = to_size_t cfg.max_entries;
                  ttl_seconds = cfg.ttl_seconds;
                })))
        else some c
      where
        key : Text
        key = make_key cfg req
