-- ===== src/Strings/Words.antt =====
-- lib/server/Utils.cpp, `split`: words with one delimiter between them.
use embdebug.Base.{
  ℕ, zero, suc, ◌<◌, ◌≤◌, ◌≡◌, refl, ap, ◌∙◌, true, List, [], ◌∷◌, ◌++◌, Bytes, arith, length,
  length-append,
}
use embdebug.Strings.{split, split_loop, skip_delims, token, behind_token, is_in}
use embdebug.Strings.Split.{Clean}

-- Words, each behind a delimiter.
abbrev pub tail_text : ℕ → List Bytes → Bytes
tail_text d [] = []
tail_text d (w ∷ ws) = d ∷ (w ++ tail_text d ws)

abbrev pub words_text : ℕ → Bytes → List Bytes → Bytes
words_text d w ws = w ++ tail_text d ws

-- Not empty and free of delimiters.
abbrev pub IsWord : Bytes → Bytes → Type 0
IsWord delim [] = ⊥
IsWord delim (c ∷ w) = Clean delim (c ∷ w)

abbrev pub AllWords : Bytes → List Bytes → Type 0
AllWords delim [] = Unit {0}
AllWords delim (w ∷ ws) = IsWord delim w × AllWords delim ws

token_word :
    (delim w : Bytes) (d : ℕ) (ws : List Bytes)
    → is_in delim d ≡ true
    → Clean delim w
    → (token delim (words_text d w ws) ≡ w)
      × (behind_token delim (words_text d w ws) ≡ tail_text d ws)
unfolding token behind_token
token_word delim [] d [] at h = (refl, refl)
token_word delim [] d (w ∷ ws) at h = (rw at refl, rw at refl)
token_word delim (c ∷ w) d ws at h =
    let (front, back) = token_word delim w d ws at h.1 in
    (rw (h.0, front) refl, rw (h.0, back) refl)

split_loop-word :
    (fuel : ℕ) (delim w : Bytes) (d : ℕ) (ws : List Bytes)
    → is_in delim d ≡ true
    → IsWord delim w
    → split_loop (suc fuel) delim (words_text d w ws) ≡ w ∷ split_loop fuel delim (tail_text d ws)
unfolding split_loop skip_delims
split_loop-word fuel delim [] d ws at h = elim h [ ]
split_loop-word fuel delim (c ∷ w) d ws at h =
    let (front, back) = token_word delim (c ∷ w) d ws at h in rw (h.0, front, back) refl

split_loop-skip :
    (fuel : ℕ) (delim s : Bytes) (d : ℕ)
    → is_in delim d ≡ true
    → split_loop (suc fuel) delim (d ∷ s) ≡ split_loop (suc fuel) delim s
unfolding split_loop skip_delims
split_loop-skip fuel delim s d at = rw at refl

split_loop-tail :
    (fuel : ℕ) (delim : Bytes) (d : ℕ) (ws : List Bytes)
    → is_in delim d ≡ true
    → AllWords delim ws
    → length ws < fuel
    → split_loop fuel delim (tail_text d ws) ≡ ws
split_loop-tail zero delim d ws at h enough = absurd (omega arith)
split_loop-tail (suc fuel) delim d [] at h enough = unfold split_loop skip_delims in refl
split_loop-tail (suc fuel) delim d (w ∷ ws) at h enough =
    split_loop-skip fuel delim (w ++ tail_text d ws) d at
    ∙ split_loop-word fuel delim w d ws at h.0
    ∙ ap (λ ws. w ∷ ws) (split_loop-tail fuel delim d ws at h.1 (omega arith))

length-tail_text-le : (d : ℕ) (ws : List Bytes) → length ws ≤ length (tail_text d ws)
length-tail_text-le d [] = omega arith
length-tail_text-le d (w ∷ ws) =
    omega (arith, length-append w (tail_text d ws), length-tail_text-le d ws)

-- `split` gives words with one delimiter between them back.
pub split-words_text :
    (delim w : Bytes) (d : ℕ) (ws : List Bytes)
    → is_in delim d ≡ true
    → IsWord delim w
    → AllWords delim ws
    → split (words_text d w ws) delim ≡ w ∷ ws
unfolding split
split-words_text delim [] d ws at h all = elim h [ ]
split-words_text delim (c ∷ w) d ws at h all =
    split_loop-word (length (words_text d (c ∷ w) ws)) delim (c ∷ w) d ws at h
    ∙ ap (λ ws. (c ∷ w) ∷ ws)
        (split_loop-tail (length (words_text d (c ∷ w) ws)) delim d ws at all
          (omega (arith, length-append (c ∷ w) (tail_text d ws), length-tail_text-le d ws)))
