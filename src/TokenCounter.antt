-- ===== src/TokenCounter.antt =====
-- src/utils/token_counter.cpp. `std::isspace` and `std::ispunct` are those of the C locale.
pub mod Messages
pub mod Tokens
use cost_optimized_llm_infer.Common.{
  ℕ, ◌+◌, Bool, ◌||◌, ◌&&◌, List, [], ◌∷◌, ◌++◌, foldl, Text, length, leb, ◌==◌, if◌then◌else◌,
}
use cost_optimized_llm_infer.Types.{Message}

-- Tab, newline, vertical tab, form feed, carriage return and the blank.
unfoldable pub is_space : ℕ → Bool
is_space c = (leb 9 c && leb c 13) || c == 32

unfoldable pub is_punct : ℕ → Bool
is_punct c =
    (leb 33 c && leb c 47)
    || (leb 58 c && leb c 64)
    || (leb 91 c && leb c 96)
    || (leb 123 c && leb c 126)

-- `while (current.size() > 4)` cuts off four bytes; what is left is a token unless it is empty.
unfoldable pub flush : Text → List Text
flush (a ∷ b ∷ c ∷ d ∷ e ∷ rest) = (a ∷ b ∷ c ∷ d ∷ []) ∷ flush (e ∷ rest)
flush [] = []
flush (a ∷ rest) = (a ∷ rest) ∷ []

-- The variables of the loop.
pub record Scan : Type 0 where
  pub tokens : List Text
  pub current : Text

-- One round of the loop of `tokenize`.
unfoldable pub scan_byte : Scan → ℕ → Scan
scan_byte s c =
    if is_space c
    then record {
      tokens = s.tokens ++ (flush s.current ++ (if c == 10 then (c ∷ []) ∷ [] else []));
      current = [];
    }
    else if is_punct c
    then record { tokens = s.tokens ++ (flush s.current ++ ((c ∷ []) ∷ [])); current = [] }
    else record { tokens = s.tokens; current = s.current ++ (c ∷ []) }

-- The rest of `current` is flushed after the loop.
unfoldable pub scan_end : Scan → List Text
scan_end s = s.tokens ++ flush s.current

unfoldable pub tokenize : Text → List Text
tokenize text = scan_end (foldl scan_byte (record { tokens = []; current = [] }) text)

unfoldable pub count : Text → ℕ
count [] = 0
count (c ∷ text) = length (tokenize (c ∷ text))

unfoldable pub count_messages : List Message → ℕ
count_messages messages = foldl (λ total msg. total + 4 + count msg.content) 0 messages + 2
