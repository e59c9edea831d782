-- ===== src/Cli/Logs/Safe.antt =====
-- `RunLogs` of internal/cli/logs.go: the places where it could panic.
use tokenlive_standalone.Prelude.{
  ℕ, ◌^◌, ◌<◌, Bool, true, false, String, List, [], ◌∷◌, Option, none, some, ◌≡◌, ◌≢◌, refl, sym,
  ap, ◌∙◌, subst, inl, inr, arith, All, All-imp, ltb, length, Bool-cases, Bytes,
}
use tokenlive_standalone.Cli.Tail.{pos, lines_read, read_last_n_lines}
use tokenlive_standalone.Cli.Errors.{LogFileInfo}
use tokenlive_standalone.Cli.Errors.Verdict.{read_given, lines_given, check_errors_lem}
use tokenlive_standalone.Cli.Format.{unit, format_bytes}
use tokenlive_standalone.Cli.Format.Bounds.{format_bytes_lem}
use tokenlive_standalone.Cli.Discover.{
  Info, FileInfo, Machine, log_file_info, discover_logs, config_loads, resolved_conf,
}
use tokenlive_standalone.Cli.Discover.Unique.{IsStated, discover_logs-IsListing}
use tokenlive_standalone.Cli.Follow.{
  Options, FileState, Start, begun, begun_at, begin_follow, followed, follow_logs,
}
use tokenlive_standalone.Cli.Logs.{
  LogsFlags, Terminal, crashed, targets_of, status_text, list_status, listed, list_logs, shown,
  banner, tail_logs, exit_zero, with_header, check_result, run_targets, run_logs,
}

-- A result is there.
abbrev pub HasValue {ℓ} : {A : Type ℓ} → Option A → Type ℓ
HasValue {A = A} o = (a : A) × (o ≡ some a)

format_bytes-HasValue : (q : ℕ → ℕ → Bytes) (b : ℕ) → b < 2 ^ 63 → HasValue (format_bytes q b)
unfolding format_bytes
format_bytes-HasValue q b h = elim (Bool-cases (ltb b unit)) [
  | inl y ↦ rw y (_, refl)
  | inr y ↦ let (a, c, r) = format_bytes_lem q b (ground (arith, y)) h in r
]

-- A size is below 2^63.
abbrev pub IsSmall : LogFileInfo → Type 0
IsSmall l = l.size < 2 ^ 63

list_status-HasValue : (t : Terminal) (l : LogFileInfo) → IsSmall l → HasValue (list_status t l)
list_status-HasValue t l h = elim (Bool-cases l.exists) [
  | inr y ↦ rw y (_, refl)
  | inl y ↦
      let (a, e) = format_bytes-HasValue t.quotient l.size h in rw y (_, ap (status_text t l) e)
]

list_logs-HasValue :
    (t : Terminal) (logs : List LogFileInfo) → All IsSmall logs → HasValue (list_logs t logs)
unfolding list_logs
list_logs-HasValue t [] h = ([], refl)
list_logs-HasValue t (l ∷ logs) h =
    let (a, e) = list_status-HasValue t l h.0 in
    let (b, d) = list_logs-HasValue t logs h.1 in
    (_, ap (λ x. listed l x (list_logs t logs)) e ∙ ap (listed l (some a)) d)

tail_logs-HasValue :
    (t : Terminal) (f : LogsFlags) (n : ℕ) (many first : Bool) (logs : List LogFileInfo)
    → f.lines ≡ pos n
    → HasValue (tail_logs t f many first logs)
unfolding tail_logs
tail_logs-HasValue t f n many first [] h = ([], refl)
tail_logs-HasValue t f n many first (l ∷ logs) h =
    let (b, d) = tail_logs-HasValue t f n many false logs h in
    let file = t.file_bytes l.path in
    let given = ap (read_last_n_lines file) h ∙ read_given file n in
    let o : Options = record { show_err_only = f.show_err_only; use_color = t.is_terminal } in
    let head = banner t many first l in
    (
      _,
      ap (λ r. shown o head r (tail_logs t f many false logs)) given
          ∙ ap (shown o head (lines_read (lines_given (read_last_n_lines file (pos n))))) d,
    )

begin_follow-HasValue :
    (o : Options) (n : ℕ) (start : String → Start) (targets : List LogFileInfo)
    → HasValue (begin_follow o (pos n) start targets)
unfolding begin_follow
begin_follow-HasValue o n start [] = (([], []), refl)
begin_follow-HasValue o n start (target ∷ targets) =
    let (r, e) = begin_follow-HasValue o n start targets in
    opened (start target.path).first_open r e
  where
    opened :
        (i : Option ℕ) (r : List FileState × Bytes)
        → begin_follow o (pos n) start targets ≡ some r
        → HasValue
            (begun_at o (pos n) target (start target.path) i (begin_follow o (pos n) start targets))
    opened none r e = (r, e)
    opened (some i) r e =
        let st = start target.path in
        let given = read_given st.first_content n in
        (
          _,
          ap (λ x. begun o target i st x (begin_follow o (pos n) start targets)) given
              ∙ ap
                  (begun o target i st
                    (lines_read (lines_given (read_last_n_lines st.first_content (pos n)))))
                  e,
        )

exits : (o : Option Bytes) → HasValue o → exit_zero o ≢ crashed
exits o (a, e) h = absurd (cc (sym (ap exit_zero e) ∙ h))

run_targets-safe :
    (t : Terminal) (f : LogsFlags) (n : ℕ) (targets : List LogFileInfo)
    → f.lines ≡ pos n
    → run_targets t f targets ≢ crashed
unfolding run_targets follow_logs
run_targets-safe t f n [] h = λ e. absurd (cc e)
run_targets-safe t f n (l ∷ targets) h = elim (Bool-cases f.follow) [
  | inr y ↦ rw y (
      exits (tail_logs t f (ltb 1 (length (l ∷ targets))) true (l ∷ targets))
        (tail_logs-HasValue t f n _ true (l ∷ targets) h))
  | inl y ↦
      let o : Options = record { show_err_only = f.show_err_only; use_color = t.is_terminal } in
      let (r, e) = begin_follow-HasValue o n t.start (l ∷ targets) in
      let d = ap (λ k. begin_follow o k t.start (l ∷ targets)) h ∙ e in
      rw y (
        exits (followed o t.ticks (begin_follow o f.lines t.start (l ∷ targets)))
          (_, ap (followed o t.ticks) d))
]

small_info :
    (m : Machine) (tag path : String) (o : Option FileInfo)
    → ((st : FileInfo) → o ≡ some st → st.file_size < 2 ^ 63)
    → (log_file_info tag path o).size < 2 ^ 63
small_info m tag path none h = omega arith
small_info m tag path (some st) h = h st refl

-- If the sizes of files are below 2^63, the number of lines is not negative, and the configuration
-- file, if there is one, can be loaded, `tokenlive logs` does not panic, whatever its other flags,
-- the files and the ticks are.
pub run_logs-safe :
    (t : Terminal) (info : Info) (f : LogsFlags) (n : ℕ)
    → ((path : String) (st : FileInfo) → t.machine.stat path ≡ some st → st.file_size < 2 ^ 63)
    → f.lines ≡ pos n
    → config_loads t.machine (resolved_conf t.machine info f.conf_path) ≡ true
    → run_logs t info f ≢ crashed
unfolding run_logs
run_logs-safe t info f n sizes h loaded =
    let logs = discover_logs t.machine info f.conf_path f.data_dir in
    let listing = discover_logs-IsListing t.machine info f.conf_path f.data_dir in
    let small =
      All-imp (IsStated t.machine) IsSmall logs
        (λ l s.
          subst IsSmall (sym s.1)
            (small_info t.machine l.tag l.path (t.machine.stat l.path) (sizes l.path)))
        listing.stated in
    elim (Bool-cases f.list_mode) [
      | inl y ↦
          let (a, e) = list_logs-HasValue t logs small in
          rw (loaded, y) (exits (with_header (list_logs t logs)) (_, ap with_header e))
      | inr y ↦ elim (Bool-cases f.check_mode) [
        | inl z ↦
            let (report, e) = check_errors_lem t.file_bytes logs in
            rw (loaded, y, z) (λ c. absurd (cc (sym (ap check_result e) ∙ c)))
        | inr z ↦ rw (loaded, y, z) (run_targets-safe t f n (targets_of f logs) h)
      ]
    ]
