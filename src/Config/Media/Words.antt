-- ===== src/Config/Media/Words.antt =====
-- Command lines and their words.
use recording_agent_continuo.Prelude.{
  ℕ, zero, suc, ◌≤◌, ◌==◌, length, take, false, ◌≡◌, ◌≢◌, refl, ap, sym, ◌∙◌, some, List, [], ◌∷◌,
  ◌++◌, arith, All, append-nil, append_assoc,
}
use recording_agent_continuo.Prelude.Text.{Text}
use recording_agent_continuo.Config.Media.{split_words, lwe_maxarg, l_wordexp}

-- A word is not empty and has no blank.
abbrev pub IsLetter : ℕ → Type 0
IsLetter c = c ≢ b' '

abbrev pub IsWord : Text → Type 0
IsWord [] = ⊥
IsWord (c ∷ cs) = IsLetter c × All IsLetter cs

-- The words with a blank between each two.
abbrev pub line : List Text → Text
line [] = []
line (w ∷ []) = w
line (w ∷ v ∷ ws) = w ++ b' ' ∷ line (v ∷ ws)

split_words-letters :
    (begun : ℕ) (word cs rest : Text)
    → All IsLetter cs
    → split_words (begun ∷ word) (cs ++ rest) ≡ split_words (begun ∷ (word ++ cs)) rest
unfolding split_words
split_words-letters b word [] rest h = ap (λ w. split_words (b ∷ w) rest) (sym (append-nil word))
split_words-letters b word (c ∷ cs) rest h =
    let letter : (c == b' ') ≡ false = let ne = h.0 in ground arith in
    rw letter (
      split_words-letters b (word ++ c ∷ []) cs rest h.1
      ∙ ap (λ w. split_words (b ∷ w) rest) (append_assoc word (c ∷ []) cs))

split_words-word : (w rest : Text) → IsWord w → split_words [] (w ++ rest) ≡ split_words w rest
unfolding split_words
split_words-word [] rest h = absurd h
split_words-word (c ∷ cs) rest h =
    let letter : (c == b' ') ≡ false = let ne = h.0 in ground arith in
    rw letter (split_words-letters c [] cs rest h.1)

split_words-blank :
    (w rest : Text) → IsWord w → split_words w (b' ' ∷ rest) ≡ w ∷ split_words [] rest
unfolding split_words
split_words-blank [] rest h = absurd h
split_words-blank (c ∷ cs) rest h = refl

split_words-end : (w : Text) → IsWord w → split_words w [] ≡ w ∷ []
unfolding split_words
split_words-end [] h = absurd h
split_words-end (c ∷ cs) h = refl

split_words-line : (ws : List Text) → All IsWord ws → split_words [] (line ws) ≡ ws
split_words-line [] h = unfold split_words in refl
split_words-line (w ∷ []) h =
    ap (split_words []) (sym (append-nil w)) ∙ split_words-word w [] h.0 ∙ split_words-end w h.0
split_words-line (w ∷ v ∷ ws) h =
    split_words-word w (b' ' ∷ line (v ∷ ws)) h.0
    ∙ split_words-blank w (line (v ∷ ws)) h.0
    ∙ ap (λ r. w ∷ r) (split_words-line (v ∷ ws) h.1)

take-all : (n : ℕ) (ws : List Text) → length ws ≤ n → take n ws ≡ ws
take-all zero [] h = refl
take-all (suc n) [] h = refl
take-all zero (w ∷ ws) h = absurd (omega arith)
take-all (suc n) (w ∷ ws) h = ap (λ r. w ∷ r) (take-all n ws (omega arith))

line-nonempty :
    (w : Text) (ws : List Text)
    → IsWord w
    → l_wordexp (line (w ∷ ws)) ≡ some (take lwe_maxarg (split_words [] (line (w ∷ ws))))
unfolding l_wordexp
line-nonempty [] ws h = absurd h
line-nonempty (c ∷ cs) [] h = refl
line-nonempty (c ∷ cs) (v ∷ ws) h = refl

-- One to 32 words that are not empty and have no blank, put together with a blank between each
-- two, are split into these words again.
pub l_wordexp-line :
    (w : Text) (ws : List Text)
    → All IsWord (w ∷ ws)
    → length (w ∷ ws) ≤ lwe_maxarg
    → l_wordexp (line (w ∷ ws)) ≡ some (w ∷ ws)
l_wordexp-line w ws h le =
    line-nonempty w ws h.0
    ∙ ap (λ r. some (take lwe_maxarg r)) (split_words-line (w ∷ ws) h)
    ∙ ap some (take-all lwe_maxarg (w ∷ ws) le)
