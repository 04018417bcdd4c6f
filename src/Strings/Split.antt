-- ===== src/Strings/Split.antt =====
-- lib/server/Utils.cpp, `split`: the tokens of a string.
use embdebug.Base.{
  ℕ, zero, suc, ◌<◌, ◌≡◌, refl, ap, ◌∙◌, true, false, List, [], ◌∷◌, ◌++◌, Bytes, arith, Bool-cases,
  inl, inr, All, length, length-append, append-nil,
}
use embdebug.Strings.{split, split_from, split_loop, skip_delims, token, behind_token, is_in}

-- The text is free of delimiters.
abbrev pub Clean : Bytes → Bytes → Type 0
Clean delim = All (λ c. is_in delim c ≡ false)

-- Tokens, each not empty and free of delimiters, in order, each with the text in front of it, of
-- delimiters only; at the end delimiters only. A delimiter stands between two tokens.
pub data Tokens (delim : Bytes) : Bytes → List Bytes → Type 0 where
  blank : {gap : Bytes} → All (λ c. is_in delim c ≡ true) gap → Tokens delim gap []
  last :
      {s : Bytes} (gap : Bytes) (c : ℕ) (tok : Bytes)
      → All (λ c. is_in delim c ≡ true) gap
      → Clean delim (c ∷ tok)
      → s ≡ gap ++ (c ∷ tok)
      → Tokens delim s ((c ∷ tok) ∷ [])
  more :
      {s : Bytes} {toks : List Bytes} (gap : Bytes) (c : ℕ) (tok : Bytes) (d : ℕ) (rest : Bytes)
      → All (λ c. is_in delim c ≡ true) gap
      → Clean delim (c ∷ tok)
      → is_in delim d ≡ true
      → s ≡ gap ++ ((c ∷ tok) ++ (d ∷ rest))
      → Tokens delim (d ∷ rest) toks
      → Tokens delim s ((c ∷ tok) ∷ toks)

gap_of :
    (delim s : Bytes)
    → (gap : Bytes) × (s ≡ gap ++ skip_delims delim s) × All (λ c. is_in delim c ≡ true) gap
unfolding skip_delims
gap_of delim [] = ([], refl, tt)
gap_of delim (c ∷ s) = elim (Bool-cases (is_in delim c)) [
  | inl e ↦ let (gap, eq, all) = gap_of delim s in (c ∷ gap, rw e (ap (◌∷◌ c) eq), (e, all))
  | inr e ↦ ([], rw e refl, tt)
]

token-append : (delim s : Bytes) → s ≡ token delim s ++ behind_token delim s
unfolding token behind_token
token-append delim [] = refl
token-append delim (c ∷ s) = elim (Bool-cases (is_in delim c)) [
  | inl e ↦ rw e refl
  | inr e ↦ rw e (ap (◌∷◌ c) (token-append delim s))
]

token-Clean : (delim s : Bytes) → Clean delim (token delim s)
unfolding token
token-Clean delim [] = tt
token-Clean delim (c ∷ s) = elim (Bool-cases (is_in delim c)) [
  | inl e ↦ rw e tt
  | inr e ↦ rw e (e, token-Clean delim s)
]

behind_token_head :
    (delim s : Bytes) (d : ℕ) (rest : Bytes)
    → behind_token delim s ≡ d ∷ rest
    → is_in delim d ≡ true
unfolding behind_token
behind_token_head delim [] d rest e = cc
behind_token_head delim (c ∷ s) d rest e = elim (Bool-cases (is_in delim c)) [
  | inl f ↦ let g : c ∷ s ≡ d ∷ rest = rw f at e in let same : c ≡ d = cc in rw same at f
  | inr f ↦ behind_token_head delim s d rest (rw f at e)
]

skip_delims_head :
    (delim s : Bytes) (c : ℕ) (s' : Bytes) → skip_delims delim s ≡ c ∷ s' → is_in delim c ≡ false
unfolding skip_delims
skip_delims_head delim [] c s' e = cc
skip_delims_head delim (x ∷ s) c s' e = elim (Bool-cases (is_in delim x)) [
  | inl f ↦ skip_delims_head delim s c s' (rw f at e)
  | inr f ↦ let g : x ∷ s ≡ c ∷ s' = rw f at e in let same : x ≡ c = cc in rw same at f
]

-- The token in front, on what stands behind it.
token_round :
    (delim s gap : Bytes) (c : ℕ) (tok b : Bytes) (go : Bytes → List Bytes)
    → All (λ c. is_in delim c ≡ true) gap
    → Clean delim (c ∷ tok)
    → s ≡ gap ++ ((c ∷ tok) ++ b)
    → ((d : ℕ) (rest : Bytes) → b ≡ d ∷ rest → is_in delim d ≡ true)
    → Tokens delim b (go b)
    → go [] ≡ []
    → Tokens delim s ((c ∷ tok) ∷ go b)
token_round delim s gap c tok [] go blanks clean eq starts later none_left =
    rw none_left (last gap c tok blanks clean (rw append-nil at eq))
token_round delim s gap c tok (d ∷ b) go blanks clean eq starts later none_left =
    more gap c tok d b blanks clean (starts d b refl) eq later

split_loop-nil : (fuel : ℕ) (delim : Bytes) → split_loop fuel delim [] ≡ []
unfolding split_loop
split_loop-nil zero delim = refl
split_loop-nil (suc fuel) delim = refl

split_round :
    (fuel : ℕ) (delim s s' : Bytes)
    → ((t : Bytes) → length t < length s' → Tokens delim t (split_loop fuel delim t))
    → skip_delims delim s ≡ s'
    → Tokens delim s (split_from (split_loop fuel delim) delim s')
split_round fuel delim s [] ih e =
    let (gap, eq, all) = gap_of delim s in
    let same : s ≡ gap = eq ∙ rw e (append-nil gap) in blank (rw (← same) at all)
split_round fuel delim s (c ∷ r) ih e =
    let (gap, eq, all) = gap_of delim s in
    let no_delim = skip_delims_head delim s c r e in
    let tok : token delim (c ∷ r) ≡ c ∷ token delim r = unfold token in rw no_delim refl in
    let behind : behind_token delim (c ∷ r) ≡ behind_token delim r =
      unfold behind_token in rw no_delim refl in
    let sizes = ap length (token-append delim r) in
    let sizes' = length-append (token delim r) (behind_token delim r) in
    rw (tok, behind)
      (token_round delim s gap c (token delim r) (behind_token delim r) (split_loop fuel delim) all
        (no_delim, token-Clean delim r)
        (eq ∙ rw e (ap (λ (t : Bytes). gap ++ (c ∷ t)) (token-append delim r)))
        (behind_token_head delim r) (ih (behind_token delim r) (omega arith))
        (split_loop-nil fuel delim))

split_loop-Tokens :
    (fuel : ℕ) (delim s : Bytes) → length s < fuel → Tokens delim s (split_loop fuel delim s)
unfolding split_loop
split_loop-Tokens zero delim s h = absurd (omega arith)
split_loop-Tokens (suc fuel) delim s h =
    let (gap, eq, all) = gap_of delim s in
    let sizes = ap length eq in
    let sizes' = length-append gap (skip_delims delim s) in
    split_round fuel delim s (skip_delims delim s)
      (λ t less. split_loop-Tokens fuel delim t (omega arith)) refl

-- `split` cuts the whole string, in order, into tokens that are not empty and free of delimiters,
-- with delimiters only between them, in front of the first and behind the last, and at least one
-- between two tokens.
pub split-Tokens : (s delim : Bytes) → Tokens delim s (split s delim)
unfolding split
split-Tokens s delim = split_loop-Tokens (suc (length s)) delim s (omega arith)
