-- ===== src/Cli/Follow/Drained.antt =====
-- `followLogs` of internal/cli/logs.go: the offset behind the drained lines.
use tokenlive_standalone.Prelude.{
  ℕ, suc, ◌+◌, Bool, String, List, [], ◌∷◌, ◌≡◌, refl, ap, ◌∙◌, inl, inr, arith, length, eqb,
  Bool-cases, Bytes,
}
use tokenlive_standalone.Cli.Follow.{Options, pieces, onto_piece, drain_pieces}

unfoldable pub total_length : List Bytes → ℕ
total_length [] = 0
total_length (p ∷ ps) = length p + total_length ps

onto_piece-total :
    (c : ℕ) (ps : List Bytes) → total_length (onto_piece c ps) ≡ suc (total_length ps)
unfolding total_length
onto_piece-total c [] = refl
onto_piece-total c (p ∷ ps) = omega arith

pieces-total : (s : Bytes) → total_length (pieces s) ≡ length s
unfolding pieces total_length
pieces-total [] = refl
pieces-total (c ∷ s) = elim (Bool-cases (eqb c b'\n')) [
  | inl y ↦ rw y (omega (arith, pieces-total s))
  | inr y ↦ rw y (onto_piece-total c (pieces s) ∙ ap suc (pieces-total s))
]

module _ (o : Options) (multi : Bool) where
  drain_pieces-end :
      (tag : String) (ps : List Bytes) (offset : ℕ)
      → (drain_pieces o multi tag ps offset).0 ≡ offset + total_length ps
  unfolding drain_pieces total_length
  drain_pieces-end tag [] offset = omega arith
  drain_pieces-end tag (p ∷ ps) offset = omega (arith, drain_pieces-end tag ps (offset + length p))

  pub drain-end :
      (tag : String) (unread : Bytes) (offset : ℕ)
      → (drain_pieces o multi tag (pieces unread) offset).0 ≡ offset + length unread
  drain-end tag unread offset =
      drain_pieces-end tag (pieces unread) offset ∙ ap (λ n. offset + n) (pieces-total unread)
