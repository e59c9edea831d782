-- ===== src/Cli/Follow/Appended.antt =====
-- Following a file that only grows, and one that is replaced.
use tokenlive_standalone.Prelude.{
  not, ◌&&◌, ◌||◌, if◌then◌else◌, ℕ, ◌+◌, Bool, true, false, String, List, [], ◌∷◌, ◌++◌, Option,
  none, some, ◌≡◌, refl, sym, ap, ◌∙◌, inl, inr, arith, length, drop, ltb, eqb, Bool-cases, Bytes,
  trim_right, length-append, bytes, All, ◌≢◌,
}
use tokenlive_standalone.Cli.Errors.{LogFileInfo, is_error_line}
use tokenlive_standalone.Cli.Format.{format_log_line}
use tokenlive_standalone.Cli.Follow.{
  Options, Handle, FileState, found, Tick, pieces, onto_piece, emit, tagged, is_line_end,
  drain_pieces, drain, is_other, after_stat, with_handle, tick, tick_all, from_start, follow_loop,
  state_at, after_rotation,
}
use tokenlive_standalone.Cli.Follow.Drained.{drain-end}

-- Whole lines: every line has its newline.
unfoldable pub ends_line : Bytes → Bool
ends_line [] = true
ends_line (c ∷ []) = eqb c b'\n'
ends_line (c ∷ (d ∷ s)) = ends_line (d ∷ s)

-- What a line of a followed file is shown as: nothing if only error lines are wanted and it is none,
-- and otherwise the line, with the tag before it if several files are followed.
abbrev pub tag_before : Bool → String → Bytes
tag_before true tag = bytes "[" ++ (bytes tag ++ bytes "] ")
tag_before false tag = []

abbrev pub shown_line : Options → Bool → String → Bytes → Bytes
shown_line o multi tag line =
    if o.show_err_only && not (is_error_line line)
    then []
    else tag_before multi tag ++ (format_log_line line o.use_color ++ (b'\n' ∷ []))

-- The lines that a text has, without their ends, each as it is shown.
unfoldable pub written : Options → Bool → String → List Bytes → Bytes
unfolding trim_right is_error_line format_log_line
written o multi tag [] = []
written o multi tag (p ∷ ps) =
    shown_line o multi tag (trim_right is_line_end p) ++ written o multi tag ps

append-empty : {A : Type 0} (xs : List A) → xs ++ [] ≡ xs
append-empty [] = refl
append-empty (x ∷ xs) = ap (λ l. x ∷ l) (append-empty xs)

append_append : {A : Type 0} (xs ys zs : List A) → (xs ++ ys) ++ zs ≡ xs ++ (ys ++ zs)
append_append [] ys zs = refl
append_append (x ∷ xs) ys zs = ap (λ l. x ∷ l) (append_append xs ys zs)

pub pieces-cons : (c : ℕ) (s : Bytes) → (p : Bytes) × (ps : List Bytes) × (pieces (c ∷ s) ≡ p ∷ ps)
unfolding pieces
pieces-cons c s = elim (Bool-cases (eqb c b'\n')) [
  | inl y ↦ (c ∷ [], pieces s, rw y refl)
  | inr y ↦ joined (pieces s) (rw y refl)
]
  where
    joined :
        (ps : List Bytes)
        → pieces (c ∷ s) ≡ onto_piece c ps
        → (p : Bytes) × (qs : List Bytes) × (pieces (c ∷ s) ≡ p ∷ qs)
    joined [] e = (c ∷ [], [], e)
    joined (p ∷ ps) e = (c ∷ p, ps, e)

onto_piece-append :
    (c d : ℕ) (s : Bytes) (qs : List Bytes)
    → onto_piece c (pieces (d ∷ s) ++ qs) ≡ onto_piece c (pieces (d ∷ s)) ++ qs
onto_piece-append c d s qs = let (p, ps, e) = pieces-cons d s in rw e refl

-- The pieces behind whole lines are those of the rest.
pub pieces-append : (a b : Bytes) → ends_line a ≡ true → pieces (a ++ b) ≡ pieces a ++ pieces b
unfolding pieces ends_line
pieces-append [] b h = refl
pieces-append (c ∷ []) b h = rw h refl
pieces-append (c ∷ (d ∷ a)) b h = elim (Bool-cases (eqb c b'\n')) [
  | inl y ↦ rw y (ap (λ l. (c ∷ []) ∷ l) (pieces-append (d ∷ a) b h))
  | inr y ↦
      rw y (ap (onto_piece c) (pieces-append (d ∷ a) b h) ∙ onto_piece-append c d a (pieces b))
]

module _ (o : Options) (multi : Bool) (tag : String) where
  written-append :
      (ps qs : List Bytes)
      → written o multi tag (ps ++ qs) ≡ written o multi tag ps ++ written o multi tag qs
  unfolding written
  written-append [] qs = refl
  written-append (p ∷ ps) qs =
      let e = shown_line o multi tag (trim_right is_line_end p) in
      ap (λ l. e ++ l) (written-append ps qs)
      ∙ sym (append_append e (written o multi tag ps) (written o multi tag qs))

  emit_tagged : (m : Bool) (l : Bytes) → tagged o m tag l ≡ tag_before m tag ++ (l ++ (b'\n' ∷ []))
  emit_tagged false l = refl
  emit_tagged true l =
      ap (λ s. bytes "[" ++ s) (sym (append_append (bytes tag) (bytes "] ") (l ++ (b'\n' ∷ []))))

  emit-shown_line : (line : Bytes) → emit o multi tag line ≡ shown_line o multi tag line
  unfolding emit
  emit-shown_line line =
      chosen o.show_err_only (is_error_line line)
        (emit_tagged multi (format_log_line line o.use_color))
    where
      chosen :
          (e err : Bool) {x y : Bytes}
          → x ≡ y
          → (if not e || err then x else []) ≡ (if e && not err then [] else y)
      chosen true true q = q
      chosen true false q = refl
      chosen false err q = q

  pub drain_pieces-written :
      (ps : List Bytes) (offset : ℕ)
      → (drain_pieces o multi tag ps offset).1 ≡ written o multi tag ps
  unfolding drain_pieces written
  drain_pieces-written [] offset = refl
  drain_pieces-written (p ∷ ps) offset =
      ap (λ l. emit o multi tag (trim_right is_line_end p) ++ l)
        (drain_pieces-written ps (offset + length p))
      ∙ ap (λ l. l ++ written o multi tag ps) (emit-shown_line (trim_right is_line_end p))

abbrev pub flatten : List Bytes → Bytes
flatten [] = []
flatten (k ∷ ks) = k ++ flatten ks

-- A tick at which the path names this file, with this content.
abbrev pub grown : ℕ → Bytes → Tick
grown i c = record {
  opened = none;
  examined = λ j. some j;
  stat = found i (length c);
  reopened = none;
  content = λ j. c;
}

-- Ticks between which texts are appended to a file.
abbrev pub appends : ℕ → Bytes → List Bytes → List (String → Tick)
appends i c [] = []
appends i c (k ∷ ks) = (λ path. grown i (c ++ k)) ∷ appends i (c ++ k) ks

-- Every text is of whole lines.
abbrev pub AllWhole : List Bytes → Type 0
AllWhole ks = All (λ k. ends_line k ≡ true) ks

drop-length : {A : Type 0} (xs ys : List A) → drop (length xs) (xs ++ ys) ≡ ys
drop-length [] ys = refl
drop-length (x ∷ xs) ys = drop-length xs ys

module _ (o : Options) (multi : Bool) (target : LogFileInfo) where
  -- Reading a file up to a position.
  abbrev reading : ℕ → ℕ → FileState
  reading i n = state_at target i (some (i, n))

  drain-reading :
      (t : Tick) (i n : ℕ)
      → drain o multi t (record { inode = i; position = n }) (reading i n) ≡ (
        reading i (n + length (drop n (t.content i))),
        written o multi target.tag (pieces (drop n (t.content i))),
      )
  drain-reading t i n =
      let u = drop n (t.content i) in
      let r = drain_pieces o multi target.tag (pieces u) n in
      let s = λ (e : ℕ). record (reading i n) {
        file = some (record { inode = i; position = n + length u });
        offset = e;
      } in
      ap (λ e. (s e, r.1)) (drain-end o multi target.tag u n)
      ∙ ap (λ w. (reading i (n + length u), w))
          (drain_pieces-written o multi target.tag (pieces u) n)

  tick-grown :
      (i : ℕ) (c k : Bytes)
      → tick o multi (grown i (c ++ k)) (reading i (length c))
        ≡ (reading i (length (c ++ k)), written o multi target.tag (pieces k))
  unfolding tick
  tick-grown i c k =
      let same : is_other o multi (some i) i ≡ false = ground arith in
      let size = length-append c k in
      let longer : ltb (length (c ++ k)) (length c) ≡ false = ground (arith, size) in
      rw (same, longer)
        (drain-reading (grown i (c ++ k)) i (length c)
          ∙ (ap (λ u. (reading i (length c + length u), written o multi target.tag (pieces u)))
                (drop-length c k)
              ∙ ap (λ n. (reading i n, written o multi target.tag (pieces k))) (sym size)))

  -- Whole lines that are appended, tick after tick, are written once and in order.
  pub follow_loop-appends :
      (i : ℕ) (c : Bytes) (ks : List Bytes)
      → AllWhole ks
      → follow_loop o multi (appends i c ks) (state_at target i (some (i, length c)) ∷ [])
        ≡ written o multi target.tag (pieces (flatten ks)) ++ bytes "\nLog tailing stopped.\n"
  unfolding follow_loop tick_all pieces written
  follow_loop-appends i c [] h = refl
  follow_loop-appends i c (k ∷ ks) h =
      let now = written o multi target.tag (pieces k) in
      let later = written o multi target.tag (pieces (flatten ks)) in
      let last = bytes "\nLog tailing stopped.\n" in
      ap (λ r. (r.1 ++ []) ++ follow_loop o multi (appends i (c ++ k) ks) (r.0 ∷ []))
        (tick-grown i c k)
      ∙ (ap (λ w. (now ++ []) ++ w) (follow_loop-appends i (c ++ k) ks h.1)
          ∙ (ap (λ w. w ++ (later ++ last)) (append-empty now)
              ∙ (sym (append_append now later last)
                  ∙ ap (λ w. w ++ last)
                      (sym (written-append o multi target.tag (pieces k) (pieces (flatten ks)))
                        ∙ ap (written o multi target.tag)
                            (sym (pieces-append k (flatten ks) h.0))))))

  -- If the path names another file than the open one, and reopening gives that file, a tick writes
  -- all lines of the new file and goes on with it.
  pub tick_replaced :
      (t : Tick) (s : FileState) (h : Handle) (i j size : ℕ)
      → s.target ≡ target
      → s.file ≡ some h
      → s.fi ≡ some i
      → t.stat ≡ found j size
      → i ≢ j
      → t.reopened ≡ some j
      → t.examined j ≡ some j
      → tick o multi t s ≡ (
        state_at target j (some (j, length (t.content j))),
        written o multi target.tag (pieces (t.content j)),
      )
  unfolding tick
  tick_replaced t s h i j size target_is file_is fi_is stat_is other reopened_is examined_is =
      let rotated : is_other o multi (some i) j ≡ true = ground (arith, other) in
      let first : tick o multi t s ≡ after_stat o multi t h s (found j size) =
        ap (with_handle o multi t s) file_is ∙ ap (after_stat o multi t h s) stat_is in
      let here : is_other o multi s.fi j ≡ true = ap (λ f. is_other o multi f j) fi_is ∙ rotated in
      let second : after_stat o multi t h s (found j size) ≡ after_rotation o multi t s t.reopened =
        rw here refl in
      let third = ap (after_rotation o multi t s) reopened_is in
      let new : Handle = record { inode = j; position = 0 } in
      let fresh : LogFileInfo → Option ℕ → FileState =
        λ g e. record { target = g; file = some new; offset = 0; fi = e } in
      let again : from_start o multi t s j ≡ reading j 0 =
        ap (λ g. fresh g (t.examined j)) target_is ∙ ap (fresh target) examined_is in
      let size_is : 0 + length (t.content j) ≡ length (t.content j) = omega arith in
      first
      ∙ (second
          ∙ (third
              ∙ (ap (drain o multi t new) again
                  ∙ (drain-reading t j 0
                      ∙ ap (λ n. (reading j n, written o multi target.tag (pieces (t.content j))))
                          size_is))))
