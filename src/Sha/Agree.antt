-- ===== src/Sha/Agree.antt =====
-- An algorithm of uclib/crypto.c with the data of the standard has its digest.
use uclib.Base.{ℕ, zero, suc, ◌/◌, ◌≡◌, refl, ◌∙◌, ap, ap₂, List, [], ◌∷◌, ◌++◌, length, take, drop}
use uclib.ByteOrder.{big_bytes}
use uclib.Sha.{Algorithm, result_bytes}
use uclib.Sha.Blocks.{fold_blocks}
use uclib.Sha.Digest.{pad, digest}
use uclib.Sha.Standard.{Standard, standard_pad, hash_blocks, words_to_bytes, standard_digest}

module _ (a : Algorithm) (h : Standard) (blocks : a.n_block ≡ h.n_block)
    (compressed : (value block : List ℕ) → a.update_block value block ≡ h.compress value block)
    (words : (x : ℕ) → a.word_bytes x ≡ big_bytes h.n_word x)
    (padded : (msg : List ℕ) → pad a msg ≡ standard_pad h msg) where
  fold-hash : (n : ℕ) (value m : List ℕ) → fold_blocks a n value m ≡ hash_blocks h n value m
  unfolding fold_blocks hash_blocks
  fold-hash zero value m = refl
  fold-hash (suc n) value m =
      fold-hash n (a.update_block value (take a.n_block m)) (drop a.n_block m)
      ∙ ap₂ (hash_blocks h n)
          (compressed value (take a.n_block m) ∙ ap (λ (k : ℕ). h.compress value (take k m)) blocks)
          (ap (λ (k : ℕ). drop k m) blocks)

  result-words : (xs : List ℕ) → result_bytes a xs ≡ words_to_bytes h.n_word xs
  unfolding result_bytes words_to_bytes
  result-words [] = refl
  result-words (x ∷ xs) = ap₂ ◌++◌ (words x) (result-words xs)

  pub digest-standard :
      (init : List ℕ) (n_words : ℕ) (msg : List ℕ)
      → init ≡ h.initial
      → n_words ≡ h.n_words
      → digest a init n_words msg ≡ standard_digest h msg
  unfolding digest standard_digest
  digest-standard init n_words msg initial count =
      result-words (take n_words (fold_blocks a (length (pad a msg) / a.n_block) init (pad a msg)))
      ∙ ap (words_to_bytes h.n_word) (
          ap₂ (λ (n : ℕ) (value : List ℕ). take n value) count
            (fold-hash (length (pad a msg) / a.n_block) init (pad a msg)
              ∙ (ap₂ (λ (value m : List ℕ). hash_blocks h (length m / a.n_block) value m) initial
                    (padded msg)
                  ∙ ap
                      (λ (b : ℕ).
                        hash_blocks h (length (standard_pad h msg) / b) h.initial
                          (standard_pad h msg))
                      blocks)))
