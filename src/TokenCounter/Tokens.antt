-- ===== src/TokenCounter/Tokens.antt =====
-- The tokens that `tokenize` cuts, against the bytes of the text.
use cost_optimized_llm_infer.Common.{
  ℕ, ◌*◌, ◌≤◌, Bool, not, ◌||◌, List, [], ◌∷◌, ◌++◌, foldl, append-nil, append_assoc, ◌≡◌, refl,
  sym, ap, ◌∙◌, Text, length, length-append, concat, concat-append, keep, All, All-append, ◌==◌,
  arith, Bool-cases, inl, inr,
}
use cost_optimized_llm_infer.TokenCounter.{
  is_space, is_punct, flush, Scan, scan_byte, scan_end, tokenize, count,
}

-- The bytes that belong to a token: all but blanks, of which a newline stays.
abbrev pub is_kept : ℕ → Bool
is_kept c = not (is_space c) || c == 10

concat-flush : (t : Text) → concat (flush t) ≡ t
unfolding flush
concat-flush (a ∷ b ∷ c ∷ d ∷ e ∷ rest) = ap (λ r. a ∷ b ∷ c ∷ d ∷ r) (concat-flush (e ∷ rest))
concat-flush [] = refl
concat-flush (a ∷ rest) = append-nil (a ∷ rest)

ruleset pieces = (concat-append, concat-flush, append_assoc, append-nil)

concat-scan_byte :
    (s : Scan) (c : ℕ) (xs : Text)
    → concat (scan_byte s c).tokens ++ ((scan_byte s c).current ++ keep is_kept xs)
      ≡ concat s.tokens ++ (s.current ++ keep is_kept (c ∷ xs))
unfolding scan_byte
concat-scan_byte s c xs = elim (Bool-cases (is_space c)) [
  | inl sp ↦ elim (Bool-cases (c == 10)) [
    | inl nl ↦ rw (sp, nl) (simp pieces)
    | inr nl ↦ rw (sp, nl) (simp pieces)
  ]
  | inr sp ↦ elim (Bool-cases (is_punct c)) [
    | inl pu ↦ rw (sp, pu) (simp pieces)
    | inr pu ↦ rw (sp, pu) (simp pieces)
  ]
]

concat-scan_end : (s : Scan) → concat (scan_end s) ≡ concat s.tokens ++ s.current
unfolding scan_end
concat-scan_end s = simp (concat-append, concat-flush)

concat-foldl :
    (s : Scan) (xs : Text)
    → concat (scan_end (foldl scan_byte s xs)) ≡ concat s.tokens ++ (s.current ++ keep is_kept xs)
concat-foldl s [] = concat-scan_end s ∙ ap (λ r. concat s.tokens ++ r) (sym (append-nil s.current))
concat-foldl s (c ∷ xs) = concat-foldl (scan_byte s c) xs ∙ concat-scan_byte s c xs

-- Put together again, the tokens are the text without its blanks; a newline is no blank here.
pub concat-tokenize : (text : Text) → concat (tokenize text) ≡ keep is_kept text
unfolding tokenize
concat-tokenize text = concat-foldl (record { tokens = []; current = [] }) text

-- A token has one to four bytes.
abbrev pub IsToken : Text → Type 0
IsToken t = (1 ≤ length t) × (length t ≤ 4)

flush-IsToken : (t : Text) → All IsToken (flush t)
unfolding flush
flush-IsToken (a ∷ b ∷ c ∷ d ∷ e ∷ rest) = (omega arith, flush-IsToken (e ∷ rest))
flush-IsToken [] = tt
flush-IsToken (a ∷ []) = omega arith
flush-IsToken (a ∷ b ∷ []) = omega arith
flush-IsToken (a ∷ b ∷ c ∷ []) = omega arith
flush-IsToken (a ∷ b ∷ c ∷ d ∷ []) = omega arith

scan_byte-IsToken : (s : Scan) (c : ℕ) → All IsToken s.tokens → All IsToken (scan_byte s c).tokens
unfolding scan_byte
scan_byte-IsToken s c h =
    let flushed : (extra : List Text)
        → All IsToken extra
        → All IsToken (s.tokens ++ (flush s.current ++ extra)) =
      λ extra k.
        All-append IsToken s.tokens _ h
          (All-append IsToken (flush s.current) extra (flush-IsToken s.current) k) in
    elim (Bool-cases (is_space c)) [
      | inl sp ↦ elim (Bool-cases (c == 10)) [
        | inl nl ↦ rw (sp, nl) (flushed ((c ∷ []) ∷ []) (omega arith))
        | inr nl ↦ rw (sp, nl) (flushed [] tt)
      ]
      | inr sp ↦ elim (Bool-cases (is_punct c)) [
        | inl pu ↦ rw (sp, pu) (flushed ((c ∷ []) ∷ []) (omega arith))
        | inr pu ↦ rw (sp, pu) h
      ]
    ]

foldl-IsToken :
    (s : Scan) (xs : Text) → All IsToken s.tokens → All IsToken (scan_end (foldl scan_byte s xs))
unfolding scan_end
foldl-IsToken s [] h = All-append IsToken s.tokens (flush s.current) h (flush-IsToken s.current)
foldl-IsToken s (c ∷ xs) h = foldl-IsToken (scan_byte s c) xs (scan_byte-IsToken s c h)

-- Every token of a text has one to four bytes.
pub tokenize-IsToken : (text : Text) → All IsToken (tokenize text)
unfolding tokenize
tokenize-IsToken text = foldl-IsToken (record { tokens = []; current = [] }) text tt

length-concat-IsToken :
    (ts : List Text)
    → All IsToken ts
    → (length ts ≤ length (concat ts)) × (length (concat ts) ≤ 4 * length ts)
length-concat-IsToken [] h = omega arith
length-concat-IsToken (t ∷ ts) h =
    omega (arith, length-concat-IsToken ts h.1, length-append t (concat ts))

pub count-length : (text : Text) → count text ≡ length (tokenize text)
unfolding count tokenize scan_end flush
count-length [] = refl
count-length (c ∷ text) = refl

-- The estimate lies between a quarter of the bytes that are no blanks and all of them.
pub count_bounds :
    (text : Text)
    → let kept = length (keep is_kept text) in (count text ≤ kept) × (kept ≤ 4 * count text)
count_bounds text =
    rw (count-length text, ← concat-tokenize text)
      (length-concat-IsToken (tokenize text) (tokenize-IsToken text))
