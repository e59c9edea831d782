-- ===== src/Cli/Follow/Followed.antt =====
-- `followLogs` of internal/cli/logs.go: one tick at which the path names a file that can be opened.
use tokenlive_standalone.Prelude.{
  length-drop, ℕ, ◌+◌, ◌≤◌, Bool, true, false, ◌&&◌, Option, none, some, ◌≡◌, refl, sym, ap, ◌∙◌,
  inl, inr, arith, length, drop, ltb, leb, eqb, if◌then◌else◌, Bool-cases, Bytes, subst,
}
use tokenlive_standalone.Cli.Follow.{
  Options, Handle, FileState, found, Tick, pieces, drain, from_start, is_other, after_rotation,
  rewound, after_stat, after_open, with_handle, tick,
}
use tokenlive_standalone.Cli.Follow.Drained.{drain-end}
use tokenlive_standalone.Cli.Follow.Appended.{written, drain_pieces-written}

-- Where reading has to go on in a file: behind what was read of it, if it is the one that is open
-- and has not become shorter, and otherwise at its start.
abbrev pub goes_on_at : Option Handle → ℕ → ℕ → ℕ → ℕ
goes_on_at none offset i size = 0
goes_on_at (some h) offset i size = if eqb h.inode i && leb offset size then offset else 0

-- What the state says of an open file: its inode is known, and it is read as far as the offset.
abbrev pub IsKnown : Option Handle → FileState → Type 0
IsKnown none s = Unit
IsKnown (some h) s = (s.fi ≡ some h.inode) × (h.position ≡ s.offset)

-- A tick at which the path names a file that can be opened.
pub record Names (t : Tick) (i : ℕ) : Type 0 where
  pub named : t.stat ≡ found i (length (t.content i))
  pub opens : t.opened ≡ some i
  pub reopens : t.reopened ≡ some i
  pub examines : t.examined i ≡ some i

module _ (o : Options) (multi : Bool) (t : Tick) (i : ℕ) where
  -- The file is open and read to its end, and what was not read before is shown.
  pub record IsFollowed (s : FileState) (start : ℕ) (r : FileState × Bytes) : Type 0 where
    pub reads_named : r.0.file ≡ some (record { inode = i; position = length (t.content i) })
    pub counts : r.0.offset ≡ length (t.content i)
    pub knows : r.0.fi ≡ some i
    pub shows : r.1 ≡ written o multi s.target.tag (pieces (drop start (t.content i)))

  read_all : (n : ℕ) (xs : Bytes) → n ≤ length xs → n + length (drop n xs) ≡ length xs
  read_all n xs h = omega (arith, length-drop n xs)

  IsFollowed-drain :
      (s' s : FileState) (start : ℕ)
      → s'.target ≡ s.target
      → s'.fi ≡ some i
      → s'.offset ≡ start
      → start ≤ length (t.content i)
      → IsFollowed s start (drain o multi t (record { inode = i; position = start }) s')
  IsFollowed-drain s' s start same knows at le =
      let u = drop start (t.content i) in
      let all = read_all start (t.content i) le in
      record {
        reads_named = ap (λ n. some (record { inode = i; position = n })) all;
        counts = drain-end o multi s'.target.tag u s'.offset ∙ (ap (λ n. n + length u) at ∙ all);
        knows = knows;
        shows =
            drain_pieces-written o multi s'.target.tag (pieces u) s'.offset
            ∙ ap (λ g. written o multi g.tag (pieces u)) same;
      }

  IsFollowed-new :
      (s : FileState)
      → Names t i
      → IsFollowed s 0
          (drain o multi t (record { inode = i; position = 0 }) (from_start o multi t s i))
  IsFollowed-new s n =
      IsFollowed-drain (from_start o multi t s i) s 0 refl n.examines refl (omega arith)

  IsFollowed-opened :
      (s : FileState)
      → Names t i
      → IsFollowed s 0 (
          after_stat o multi t
            (record { inode = i; position = 0 })
            (from_start o multi t s i)
            (found i (length (t.content i))))
  IsFollowed-opened s n =
      let same : is_other o multi (t.examined i) i ≡ false =
        ap (λ e. is_other o multi e i) n.examines ∙ ground arith in
      let longer : ltb (length (t.content i)) 0 ≡ false = ground arith in
      rw (same, longer) (IsFollowed-new s n)

  at_end :
      (h : Handle) {n : ℕ} → h.inode ≡ i → h.position ≡ n → h ≡ record { inode = i; position = n }
  at_end h here at =
      ap (λ j. record { inode = j; position = h.position }) here
      ∙ ap (λ p. record { inode = i; position = p }) at

  IsFollowed-stat :
      (h : Handle) (s : FileState)
      → Names t i
      → IsKnown (some h) s
      → IsFollowed s
          (goes_on_at (some h) s.offset i (length (t.content i)))
          (after_stat o multi t h s (found i (length (t.content i))))
  IsFollowed-stat h s n (known, at) = elim (Bool-cases (eqb h.inode i)) [
    | inr y ↦
        let other : is_other o multi s.fi i ≡ true =
          ap (λ e. is_other o multi e i) known ∙ ground (arith, y) in
        rw (y, other)
          (subst (λ r. IsFollowed s 0 (after_rotation o multi t s r)) (sym n.reopens)
            (IsFollowed-new s n))
    | inl y ↦
        let here : h.inode ≡ i = ground (arith, y) in
        let same : is_other o multi s.fi i ≡ false =
          ap (λ e. is_other o multi e i) known ∙ ground (arith, y) in
        elim (Bool-cases (leb s.offset (length (t.content i)))) [
          | inl z ↦
              let fits : ltb (length (t.content i)) s.offset ≡ false = ground (arith, z) in
              rw (y, z, same, fits)
                (subst (λ r. IsFollowed s s.offset (drain o multi t r s)) (sym (at_end h here at))
                  (IsFollowed-drain s s s.offset refl (known ∙ ap (λ j. some j) here) refl
                    (ground (arith, z))))
          | inr z ↦
              let short : ltb (length (t.content i)) s.offset ≡ true = ground (arith, z) in
              rw (y, z, same, short)
                (let s' = record s { file = some (rewound o multi h); offset = 0 } in
                  subst (λ r. IsFollowed s 0 (drain o multi t r s'))
                    (ap (λ j. record { inode = j; position = 0 }) (sym here))
                    (IsFollowed-drain s' s 0 refl (known ∙ ap (λ j. some j) here) refl
                      (omega arith)))
        ]
  ]

  IsFollowed-with_handle :
      (s : FileState) (f : Option Handle)
      → Names t i
      → IsKnown f s
      → IsFollowed s (goes_on_at f s.offset i (length (t.content i))) (with_handle o multi t s f)
  IsFollowed-with_handle s none n k =
      subst (λ r. IsFollowed s 0 (after_open o multi t s r)) (sym n.opens)
        (subst
          (λ p. IsFollowed s 0 (
            after_stat o multi t (record { inode = i; position = 0 }) (from_start o multi t s i) p))
          (sym n.named) (IsFollowed-opened s n))
  IsFollowed-with_handle s (some h) n k =
      subst
        (λ p.
          IsFollowed s (goes_on_at (some h) s.offset i (length (t.content i)))
            (after_stat o multi t h s p))
        (sym n.named) (IsFollowed-stat h s n k)

  -- If the path names a file that can be opened, then after a tick that file is the open one and
  -- is read exactly to its end, and what was shown is its lines from where reading has to go on:
  -- from the offset, if this file was open and has not become shorter, and from its start if it
  -- had become shorter, if another file was open, or none. The file that was open before, if any,
  -- is known by its inode and was read as far as the offset.
  pub tick-IsFollowed :
      (s : FileState)
      → Names t i
      → IsKnown s.file s
      → IsFollowed s (goes_on_at s.file s.offset i (length (t.content i))) (tick o multi t s)
  unfolding tick
  tick-IsFollowed s n k = IsFollowed-with_handle s s.file n k
