-- ===== src/TokenCounter/Messages.antt =====
-- How the estimate of a text or of a conversation is made up of the estimates of its parts.
use mathlib.Core.List.{foldl-append}
use cost_optimized_llm_infer.Common.{
  ℕ, ◌+◌, true, List, [], ◌∷◌, ◌++◌, foldl, append-nil, append_assoc, ◌≡◌, ap, ◌∙◌, Text, ◌==◌,
  if◌then◌else◌, arith, Bool-cases, inl, inr,
}
use cost_optimized_llm_infer.Types.{Message}
use cost_optimized_llm_infer.TokenCounter.{
  is_space, is_punct, Scan, scan_byte, scan_end, tokenize, count, count_messages,
}

abbrev start : Scan
start = record { tokens = []; current = [] }

-- The scanner with more tokens in front of its own.
abbrev after : List Text → Scan → Scan
after ts s = record { tokens = ts ++ s.tokens; current = s.current }

scan_byte-after :
    (ts : List Text) (s : Scan) (c : ℕ) → scan_byte (after ts s) c ≡ after ts (scan_byte s c)
unfolding scan_byte
scan_byte-after ts s c = elim (Bool-cases (is_space c)) [
  | inl sp ↦ rw sp (simp append_assoc)
  | inr sp ↦ elim (Bool-cases (is_punct c)) [
    | inl pu ↦ rw (sp, pu) (simp append_assoc)
    | inr pu ↦ rw (sp, pu)
  ]
]

scan-after :
    (ts : List Text) (s : Scan) (xs : Text)
    → scan_end (foldl scan_byte (after ts s) xs) ≡ ts ++ scan_end (foldl scan_byte s xs)
unfolding scan_end
scan-after ts s [] = simp append_assoc
scan-after ts s (c ∷ xs) =
    ap (λ r. scan_end (foldl scan_byte r xs)) (scan_byte-after ts s c)
    ∙ scan-after ts (scan_byte s c) xs

abbrev pub break_at : ℕ → List Text
break_at c = if c == 10 then (c ∷ []) ∷ [] else []

scan_byte_blank :
    (s : Scan) (c : ℕ) → is_space c ≡ true → scan_byte s c ≡ after (scan_end s ++ break_at c) start
unfolding scan_byte scan_end
scan_byte_blank s c sp = rw sp (simp (append_assoc, append-nil))

-- Blanks separate: the tokens of a text with a blank in it are those of the two parts, with the
-- blank between them if it is a newline.
pub tokenize-append :
    (a : Text) (c : ℕ) (b : Text)
    → is_space c ≡ true
    → tokenize (a ++ c ∷ b) ≡ tokenize a ++ (break_at c ++ tokenize b)
unfolding tokenize
tokenize-append a c b sp =
    let s = foldl scan_byte start a in
    ap scan_end (foldl-append scan_byte start a (c ∷ b))
    ∙ ap (λ r. scan_end (foldl scan_byte r b)) (scan_byte_blank s c sp)
    ∙ scan-after (scan_end s ++ break_at c) start b
    ∙ append_assoc (scan_end s) (break_at c) (tokenize b)

counted-from :
    (n : ℕ) (ms : List Message)
    → foldl (λ total msg. total + 4 + count msg.content) n ms + 2 ≡ n + count_messages ms
unfolding count_messages
counted-from n [] = omega arith
counted-from n (m ∷ ms) =
    omega
      (arith, counted-from (n + 4 + count m.content) ms, counted-from (0 + 4 + count m.content) ms)

-- Two conversations joined cost the sum of both, less the two priming tokens that are counted once.
pub count_messages-append :
    (xs ys : List Message) → count_messages (xs ++ ys) + 2 ≡ count_messages xs + count_messages ys
unfolding count_messages
count_messages-append xs ys = omega (
  arith,
  ap (λ t. t + 2) (foldl-append (λ total msg. total + 4 + count msg.content) 0 xs ys),
  counted-from (foldl (λ total msg. total + 4 + count msg.content) 0 xs) ys,
)
