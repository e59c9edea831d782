-- ===== src/Cli/Follow/Verbatim.antt =====
-- `followLogs` of internal/cli/logs.go: the bytes that a file which grows by whole lines is shown as.
use tokenlive_standalone.Prelude.{
  ℕ, Bool, true, false, not, ◌&&◌, String, List, [], ◌∷◌, ◌++◌, ◌≡◌, refl, sym, ap, ◌∙◌, inl, inr,
  arith, eqb, if◌then◌else◌, Bool-cases, Bytes, bytes, All, All-append, trim_right, same_bytes,
  length, some, subst,
}
use tokenlive_standalone.Cli.Errors.{LogFileInfo, is_error_line}
use tokenlive_standalone.Cli.Format.{format_log_line}
use tokenlive_standalone.Cli.Follow.{Options, pieces, is_line_end, follow_loop, state_at}
use tokenlive_standalone.Cli.Follow.Appended.{
  ends_line, AllWhole, flatten, appends, written, pieces-cons, pieces-append, follow_loop-appends,
}

-- No byte is a carriage return.
abbrev pub HasNoReturn : Bytes → Type 0
HasNoReturn s = All (λ c. eqb c 13 ≡ false) s

-- The lines that are wanted: all, or the error lines.
abbrev pub wanted : Bool → List Bytes → List Bytes
wanted only_errors [] = []
wanted only_errors (p ∷ ps) =
    let rest = wanted only_errors ps in
    if only_errors && not (is_error_line (trim_right is_line_end p)) then rest else p ∷ rest

-- A line with its end, without a carriage return before it.
abbrev IsLine : Bytes → Type 0
IsLine p = trim_right is_line_end p ++ (b'\n' ∷ []) ≡ p

IsLine-pieces : (s : Bytes) → ends_line s ≡ true → HasNoReturn s → All IsLine (pieces s)
unfolding pieces ends_line trim_right same_bytes
IsLine-pieces [] h n = tt
IsLine-pieces (c ∷ []) h n = let e : c ≡ b'\n' = ground (arith, h) in rw e (refl, tt)
IsLine-pieces (c ∷ (d ∷ s)) h n = elim (Bool-cases (eqb c b'\n')) [
  | inl y ↦ let e : c ≡ b'\n' = ground (arith, y) in rw e (refl, IsLine-pieces (d ∷ s) h n.1)
  | inr y ↦
      let (p, ps, q) = pieces-cons d s in
      let later : All IsLine (p ∷ ps) = subst (All IsLine) q (IsLine-pieces (d ∷ s) h n.1) in
      let inner : is_line_end c ≡ false = ground (arith, y, n.0) in
      rw (y, q, inner) (ap (λ l. c ∷ l) later.0, later.1)
]

module _ (only_errors : Bool) (tag : String) where
  abbrev plain : Options
  plain = record { show_err_only = only_errors; use_color = false }

  written-wanted :
      (ps : List Bytes)
      → All IsLine ps
      → written plain false tag ps ≡ flatten (wanted only_errors ps)
  unfolding written format_log_line
  written-wanted [] h = refl
  written-wanted (p ∷ ps) h =
      elim (Bool-cases (only_errors && not (is_error_line (trim_right is_line_end p)))) [
        | inl y ↦ rw y (written-wanted ps h.1)
        | inr y ↦ rw y (
            ap (λ l. l ++ written plain false tag ps) h.0
            ∙ ap (λ l. p ++ l) (written-wanted ps h.1))
      ]

  IsLine-flatten :
      (ks : List Bytes) → AllWhole ks → All HasNoReturn ks → All IsLine (pieces (flatten ks))
  unfolding pieces
  IsLine-flatten [] h n = tt
  IsLine-flatten (k ∷ ks) h n = subst (All IsLine) (sym (pieces-append k (flatten ks) h.0)) (
      All-append IsLine (pieces k) (pieces (flatten ks)) (IsLine-pieces k h.0 n.0)
        (IsLine-flatten ks h.1 n.1))

module _ (only_errors : Bool) (target : LogFileInfo) where
  -- If, tick after tick, whole lines without carriage returns are appended to the one file that is
  -- followed, without colours, and its path names it all the time, then what is written is these
  -- lines, byte for byte, once and in order, however they fall on the ticks, and then the last
  -- message; with `-e`, only those of them that are error lines.
  pub follow_loop-verbatim :
      (i : ℕ) (c : Bytes) (ks : List Bytes)
      → AllWhole ks
      → All HasNoReturn ks
      → follow_loop
          (record { show_err_only = only_errors; use_color = false })
          false
          (appends i c ks)
          (state_at target i (some (i, length c)) ∷ [])
        ≡ flatten (wanted only_errors (pieces (flatten ks))) ++ bytes "\nLog tailing stopped.\n"
  follow_loop-verbatim i c ks h n =
      follow_loop-appends (plain only_errors target.tag) false target i c ks h
      ∙ ap (λ l. l ++ bytes "\nLog tailing stopped.\n")
          (written-wanted only_errors target.tag (pieces (flatten ks))
            (IsLine-flatten only_errors target.tag ks h n))
