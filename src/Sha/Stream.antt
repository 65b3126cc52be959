-- ===== src/Sha/Stream.antt =====
-- A message that comes in pieces: `init`, any number of `update`s, `finalize`.
use uclib.Base.{
  ℕ, ◌<◌, ◌≡◌, refl, ◌∙◌, ap, subst, Bool, List, [], ◌∷◌, ◌++◌, append_assoc, append-nil, arith,
  length,
}
use uclib.Sha.{Bytes, Sha, Algorithm, update, finalize}
use uclib.Sha.Blocks.{fold_blocks}
use uclib.Sha.Digest.{digest, IsAlgorithm, Absorbed}
use uclib.Sha.Update.{update-Absorbed}
use uclib.Sha.Finalize.{finalize-digest}

unfoldable pub concat : List Bytes → Bytes
concat [] = []
concat (d ∷ ds) = d ++ concat ds

unfoldable pub updates : Algorithm → Sha → List Bytes → Sha
updates a s [] = s
updates a s (d ∷ ds) = updates a (update a s d) ds

module _ (a : Algorithm) (init : List ℕ) (n_max : ℕ) (laws : IsAlgorithm a n_max) where
  open a use {n_block}

  updates-Absorbed :
      (ds : List Bytes) (s : Sha) (msg : Bytes)
      → Absorbed a init s msg
      → Absorbed a init (updates a s ds) (msg ++ concat ds)
  unfolding updates concat
  updates-Absorbed [] s msg h = rw (append-nil msg) h
  updates-Absorbed (d ∷ ds) s msg h =
      subst (λ (t : Bytes). Absorbed a init (updates a (update a s d) ds) t)
        (append_assoc msg d (concat ds))
        (updates-Absorbed ds (update a s d) (msg ++ d)
          (update-Absorbed a init n_max laws s msg d h))

  updates-is_short : (ds : List Bytes) (s : Sha) → (updates a s ds).is_short ≡ s.is_short
  unfolding updates update
  updates-is_short [] s = refl
  updates-is_short (d ∷ ds) s = updates-is_short ds (update a s d)

  init-Absorbed :
      (s : Sha)
      → s.n_bytes_processed ≡ 0
      → s.state ≡ init
      → length s.partial_block_buffer ≡ n_block
      → Absorbed a init s []
  unfolding fold_blocks
  init-Absorbed s zero_bytes e l = record {
    q = 0;
    body = [];
    tail = [];
    split = refl;
    whole = omega arith;
    short = omega (arith, laws.room);
    folded = e;
    sized = l;
    buffered = refl;
    counted = zero_bytes;
  }

  pub stream-digest :
      (n_words : Bool → ℕ) (s : Sha) (ds : List Bytes)
      → s.n_bytes_processed ≡ 0
      → s.state ≡ init
      → length s.partial_block_buffer ≡ n_block
      → length (concat ds) < n_max
      → (finalize a n_words (updates a s ds)).1 ≡ digest a init (n_words s.is_short) (concat ds)
  stream-digest n_words s ds z e l lt =
      finalize-digest a init n_max laws n_words (updates a s ds) (concat ds)
        (updates-Absorbed ds s [] (init-Absorbed s z e l)) lt
      ∙ ap (λ (b : Bool). digest a init (n_words b) (concat ds)) (updates-is_short ds s)
