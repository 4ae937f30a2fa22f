-- ===== src/Api/Identifiers.antt =====
-- `generate_request_id` of src/api/chat_completions.cpp. The draw of the random generator, a number
-- of 64 bits, is an argument.
use mathlib.Core.List.{reverse-reverse}
use cost_optimized_llm_infer.Common.{
  ℕ, zero, suc, ◌+◌, ◌-◌, ◌*◌, ◌/◌, ◌%◌, ◌<◌, [], ◌∷◌, ◌++◌, reverse, drop, Text, codes, ltb, ◌≡◌,
  sym, ap, ◌∙◌, arith, if◌then◌else◌,
}
use cost_optimized_llm_infer.Auth.{hex_char}

-- The hexadecimal digits, the last one first; `fuel` bounds their number.
unfoldable pub hex_reversed : ℕ → ℕ → Text
hex_reversed zero n = []
hex_reversed (suc fuel) n =
    let rest = hex_reversed fuel (n / 16) in
    if ltb n 16 then hex_char n ∷ [] else hex_char (n % 16) ∷ rest

-- `"chatcmpl-" << std::hex << draw`. A number has no more digits than it has units.
unfoldable pub generate_request_id : (draw : ℕ) → Text
generate_request_id draw = codes "chatcmpl-" ++ reverse (hex_reversed (suc draw) draw)

hex_value : ℕ → ℕ
hex_value c = if ltb c 58 then c - 48 else c - 87

hex_value-hex_char : (d : ℕ) → d < 16 → hex_value (hex_char d) ≡ d
unfolding hex_value hex_char
hex_value-hex_char d lt = ground arith

read_hex : Text → ℕ
read_hex [] = 0
read_hex (c ∷ cs) = hex_value c + 16 * read_hex cs

read_hex-hex_reversed : (fuel n : ℕ) → n < fuel → read_hex (hex_reversed fuel n) ≡ n
unfolding read_hex hex_reversed
read_hex-hex_reversed zero n lt = absurd (omega arith)
read_hex-hex_reversed (suc fuel) n lt =
    ground (
      arith,
      read_hex-hex_reversed fuel (n / 16),
      hex_value-hex_char n,
      hex_value-hex_char (n % 16),
    )

-- Different draws give requests different identifiers.
pub generate_request_id-injective :
    (m n : ℕ) → generate_request_id m ≡ generate_request_id n → m ≡ n
unfolding generate_request_id
generate_request_id-injective m n e =
    let shown = λ (k : ℕ). hex_reversed (suc k) k in
    let same : shown m ≡ shown n =
      sym (reverse-reverse (shown m))
      ∙ ap (λ t. reverse (drop 9 t)) e
      ∙ reverse-reverse (shown n) in
    sym (read_hex-hex_reversed (suc m) m (omega arith))
    ∙ ap read_hex same
    ∙ read_hex-hex_reversed (suc n) n (omega arith)
