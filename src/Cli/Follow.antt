-- ===== src/Cli/Follow.antt =====
-- `followLogs` of internal/cli/logs.go. A file is its inode; what the system answers in one tick for
-- a path is the record `Tick`, and the context is done when the ticks are used up.
use tokenlive_standalone.Prelude.{
  ℕ, ◌+◌, Bool, true, false, not, ◌||◌, String, List, [], ◌∷◌, ◌++◌, Option, none, some, length,
  drop, eqb, ltb, if◌then◌else◌, bytes, Bytes, trim_right,
}
use tokenlive_standalone.Cli.Tail.{ℤ, Read, lines_read, panics, read_last_n_lines}
use tokenlive_standalone.Cli.Errors.{LogFileInfo, is_error_line}
use tokenlive_standalone.Cli.Format.{coloured, format_log_line}
pub mod Drained
pub mod Appended
pub mod Followed
pub mod Verbatim

pub record Options : Type 0 where
  pub show_err_only : Bool
  pub use_color : Bool

-- An open file, and how far it is read.
pub record Handle : Type 0 where
  pub inode : ℕ
  pub position : ℕ

pub record FileState : Type 0 where
  pub target : LogFileInfo
  pub file : Option Handle
  pub offset : ℕ
  pub fi : Option ℕ

-- What `os.Stat` answers: a file and its size, that there is none, or another error.
pub data PathInfo : Type 0 where
  found : ℕ → ℕ → PathInfo
  not_exist stat_failed : PathInfo

pub record Tick : Type 0 where
  pub opened : Option ℕ  -- `os.Open` of a path whose file is closed
  pub examined : ℕ → Option ℕ  -- `f.Stat` of an open file
  pub stat : PathInfo
  pub reopened : Option ℕ  -- `os.Open` after a rotation
  pub content : ℕ → Bytes  -- by inode, when it is read

-- `ReadString('\n')` until it fails: each piece has its newline but, perhaps, the last.
abbrev pub onto_piece : ℕ → List Bytes → List Bytes
onto_piece c [] = (c ∷ []) ∷ []
onto_piece c (p ∷ ps) = (c ∷ p) ∷ ps

unfoldable pub pieces : Bytes → List Bytes
pieces [] = []
pieces (c ∷ s) = let rest = pieces s in if eqb c b'\n' then (c ∷ []) ∷ rest else onto_piece c rest

abbrev pub is_line_end : ℕ → Bool
is_line_end c = eqb c 13 || eqb c b'\n'

module _ (o : Options) (multi : Bool) where
  -- The closure `emit`: what it writes.
  abbrev pub tagged : String → Bytes → Bytes
  tagged tag line =
      if multi
      then bytes "[" ++ (bytes tag ++ (bytes "] " ++ (line ++ (b'\n' ∷ []))))
      else line ++ (b'\n' ∷ [])

  unfoldable pub emit : String → Bytes → Bytes
  unfolding is_error_line format_log_line
  emit tag line =
      if not o.show_err_only || is_error_line line
      then tagged tag (format_log_line line o.use_color)
      else []

  -- The loop that drains a reader: the offset and what is written.
  unfoldable pub drain_pieces : String → List Bytes → ℕ → ℕ × Bytes
  unfolding trim_right emit
  drain_pieces tag [] offset = (offset, [])
  drain_pieces tag (p ∷ ps) offset =
      let (end, out) = drain_pieces tag ps (offset + length p) in
      (end, emit tag (trim_right is_line_end p) ++ out)

  abbrev pub drain : Tick → Handle → FileState → FileState × Bytes
  drain t h s =
      let unread = drop h.position (t.content h.inode) in
      let (end, out) = drain_pieces s.target.tag (pieces unread) s.offset in
      (
        record s { file = some (record h { position = h.position + length unread }); offset = end },
        out,
      )

  abbrev pub from_start : Tick → FileState → ℕ → FileState
  from_start t s i = record {
    target = s.target;
    file = some (record { inode = i; position = 0 });
    offset = 0;
    fi = t.examined i;
  }

  abbrev pub closed : FileState → FileState
  closed s = record s { file = none; fi = none }

  abbrev pub is_other : Option ℕ → ℕ → Bool
  is_other none i = false
  is_other (some j) i = not (eqb i j)

  abbrev pub after_rotation : Tick → FileState → Option ℕ → FileState × Bytes
  after_rotation t s (some j) = drain t (record { inode = j; position = 0 }) (from_start t s j)
  after_rotation t s none = (closed s, [])

  abbrev pub rewound : Handle → Handle
  rewound h = record h { position = 0 }

  abbrev pub after_stat : Tick → Handle → FileState → PathInfo → FileState × Bytes
  after_stat t h s (found i size) =
      if is_other s.fi i
      then after_rotation t s t.reopened
      else (if ltb size s.offset
          then drain t (rewound h) (record s { file = some (rewound h); offset = 0 })
          else drain t h s)
  after_stat t h s not_exist = (closed s, [])
  after_stat t h s stat_failed = drain t h s

  abbrev pub after_open : Tick → FileState → Option ℕ → FileState × Bytes
  after_open t s none = (s, [])
  after_open t s (some i) =
      after_stat t (record { inode = i; position = 0 }) (from_start t s i) t.stat

  abbrev pub with_handle : Tick → FileState → Option Handle → FileState × Bytes
  with_handle t s none = after_open t s t.opened
  with_handle t s (some h) = after_stat t h s t.stat

  -- One tick for one file.
  unfoldable pub tick : Tick → FileState → FileState × Bytes
  unfolding pieces drain_pieces
  tick t s = with_handle t s s.file

  -- One tick for all of them; the answers are by path.
  unfoldable pub tick_all : (String → Tick) → List FileState → List FileState × Bytes
  unfolding tick
  tick_all t [] = ([], [])
  tick_all t (s ∷ states) =
      let (s', out) = tick (t s.target.path) s in
      let (states', more) = tick_all t states in (s' ∷ states', out ++ more)

  -- The loop of `followLogs`: what it writes until the context is done.
  unfoldable pub follow_loop : List (String → Tick) → List FileState → Bytes
  unfolding tick_all
  follow_loop [] states = bytes "\nLog tailing stopped.\n"
  follow_loop (t ∷ ticks) states =
      let (states', out) = tick_all t states in out ++ follow_loop ticks states'

-- A target when the command starts: what its path opens, what `f.Stat` says, and what it holds.
pub record Start : Type 0 where
  pub first_open : Option ℕ
  pub first_stat : Option (ℕ × ℕ)  -- the inode and the size
  pub first_content : Option Bytes

unfoldable pub initial_lines : Options → List Bytes → Bytes
unfolding is_error_line format_log_line
initial_lines o [] = []
initial_lines o (l ∷ ls) =
    let rest = initial_lines o ls in
    if o.show_err_only
    then (if is_error_line l then format_log_line l o.use_color ++ (b'\n' ∷ rest) else rest)
    else format_log_line l o.use_color ++ (b'\n' ∷ rest)

-- `printBanner`.
abbrev pub print_banner : String → String → Bool → Bytes
print_banner tag path use_color =
    let banner =
      bytes "--- Log: [" ++ (bytes tag ++ (bytes "] " ++ (bytes path ++ bytes " ---"))) in
    if use_color then coloured "[1;36m" banner ++ (b'\n' ∷ []) else banner ++ (b'\n' ∷ [])

abbrev pub state_at : LogFileInfo → ℕ → Option (ℕ × ℕ) → FileState
state_at target i none = record {
  target = target;
  file = some (record { inode = i; position = 0 });
  offset = 0;
  fi = none;
}
state_at target i (some (j, size)) = record {
  target = target;
  file = some (record { inode = i; position = size });
  offset = size;
  fi = some j;
}

-- The states and what is written before the first tick; `none` is a run-time panic.
abbrev pub begun :
    Options
    → LogFileInfo
    → ℕ
    → Start
    → Read
    → Option (List FileState × Bytes)
    → Option (List FileState × Bytes)
begun o target i st panics rest = none
begun o target i st (lines_read ls) none = none
begun o target i st (lines_read ls) (some (states, out)) = some (
  state_at target i st.first_stat ∷ states,
  print_banner target.tag target.path o.use_color ++ (initial_lines o ls ++ out),
)

abbrev pub begun_at :
    Options
    → ℤ
    → LogFileInfo
    → Start
    → Option ℕ
    → Option (List FileState × Bytes)
    → Option (List FileState × Bytes)
begun_at o n target st none rest = rest
begun_at o n target st (some i) rest =
    begun o target i st (read_last_n_lines st.first_content n) rest

unfoldable pub begin_follow :
    Options → ℤ → (String → Start) → List LogFileInfo → Option (List FileState × Bytes)
unfolding read_last_n_lines initial_lines
begin_follow o n start [] = some ([], [])
begin_follow o n start (target ∷ targets) =
    begun_at o n target (start target.path) (start target.path).first_open
      (begin_follow o n start targets)

abbrev pub followed :
    Options → List (String → Tick) → Option (List FileState × Bytes) → Option Bytes
followed o ticks none = none
followed o ticks (some (states, out)) =
    some (out ++ follow_loop o (ltb 1 (length states)) ticks states)

-- `followLogs`: what it writes; its exit code is 0.
unfoldable pub follow_logs :
    Options → ℤ → (String → Start) → List LogFileInfo → List (String → Tick) → Option Bytes
unfolding begin_follow follow_loop
follow_logs o n start targets ticks = followed o ticks (begin_follow o n start targets)
