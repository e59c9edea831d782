-- ===== src/Cli/Logs.antt =====
-- `RunLogs` and `RunStatus` of internal/cli/logs.go, from their parsed flags. The package `flag`, the
-- clock's format, and the answer of the health endpoint are parameters.
use tokenlive_standalone.Prelude.{
  ℕ, zero, suc, ◌+◌, ◌-◌, Bool, true, false, not, ◌&&◌, ◌||◌, String, List, [], ◌∷◌, ◌++◌, Option,
  none, some, length, eqb, ltb, ◌==◌, if◌then◌else◌, bytes, Bytes, contains, decimal, trim_bytes,
}
use tokenlive_standalone.Cli.Tail.{ℤ, pos, Read, lines_read, panics, read_last_n_lines}
use tokenlive_standalone.Cli.Errors.{
  LogFileInfo, is_error_line, CheckLine, check_errors, scan_errors,
}
use tokenlive_standalone.Cli.Format.{format_bytes}
use tokenlive_standalone.Cli.Discover.{
  Info, Machine, first_non_empty, file_exists, exists_str, discover_logs, config_loads,
  resolved_conf,
}
use tokenlive_standalone.Cli.Follow.{Options, Start, Tick, print_banner, initial_lines, follow_logs}
pub mod Safe

pub record LogsFlags : Type 0 where
  pub follow : Bool
  pub lines : ℤ
  pub show_err_only : Bool
  pub app_only : Bool
  pub service_only : Bool
  pub check_mode : Bool
  pub list_mode : Bool
  pub conf_path : String
  pub data_dir : String

-- What the subcommand reads while it runs.
pub record Terminal : Type 0 where
  pub machine : Machine
  pub file_bytes : String → Option Bytes
  pub is_terminal : Bool
  pub start : String → Start
  pub ticks : List (String → Tick)
  pub quotient : ℕ → ℕ → Bytes  -- `%.1f`
  pub time_text : ℕ → Bytes  -- `Format("15:04:05")`

-- The exit code and what is printed, or a run-time panic.
pub data LogsRun : Type 0 where
  printed : ℕ → Bytes → LogsRun
  checked : ℕ → List CheckLine → LogsRun
  no_targets crashed : LogsRun

abbrev pub tag_has : String → LogFileInfo → Bool
tag_has part l = contains (bytes part) (bytes l.tag)

-- The filter of `RunLogs`. Both ways of its last test append the file.
unfoldable pub is_target : LogsFlags → LogFileInfo → Bool
unfolding contains
is_target f l =
    if not l.exists
    then false
    else if f.app_only && (not (tag_has "app" l) && not (tag_has "config" l))
    then false
    else if f.service_only && not (tag_has "service" l)
    then false
    else if f.show_err_only && not (tag_has "err" l)
    then true
    else true

unfoldable pub targets_of : LogsFlags → List LogFileInfo → List LogFileInfo
unfolding is_target
targets_of f [] = []
targets_of f (l ∷ logs) = let rest = targets_of f logs in if is_target f l then l ∷ rest else rest

unfoldable pub spaces : ℕ → Bytes
spaces zero = []
spaces (suc n) = b' ' ∷ spaces n

-- `%-11s`.
abbrev pub padded : String → Bytes
padded tag = bytes tag ++ spaces (11 - length (bytes tag))

abbrev pub status_text : Terminal → LogFileInfo → Option Bytes → Option Bytes
status_text t l none = none
status_text t l (some size) =
    some
      (bytes "EXISTS (" ++ (size ++ (bytes ", updated " ++ (t.time_text l.mod_time ++ bytes ")"))))

abbrev pub list_status : Terminal → LogFileInfo → Option Bytes
list_status t l =
    if l.exists then status_text t l (format_bytes t.quotient l.size) else some (bytes "NOT FOUND")

abbrev pub listed : LogFileInfo → Option Bytes → Option Bytes → Option Bytes
listed l (some status) (some rest) = some (
    bytes "  ["
    ++ (padded l.tag
        ++ (bytes "] " ++ (bytes l.path ++ (bytes " -> " ++ (status ++ (b'\n' ∷ rest)))))))
listed l (some status) none = none
listed l none rest = none

unfoldable pub list_logs : Terminal → List LogFileInfo → Option Bytes
unfolding format_bytes spaces
list_logs t [] = some []
list_logs t (l ∷ logs) = listed l (list_status t l) (list_logs t logs)

abbrev pub banner : Terminal → Bool → Bool → LogFileInfo → Bytes
banner t many first l =
    if many
    then (if first then [] else b'\n' ∷ []) ++ print_banner l.tag l.path t.is_terminal
    else []

abbrev pub shown : Options → Bytes → Read → Option Bytes → Option Bytes
shown o head panics rest = none
shown o head (lines_read ls) none = none
shown o head (lines_read ls) (some out) = some (head ++ (initial_lines o ls ++ out))

-- The loop of the mode without `-f`.
unfoldable pub tail_logs : Terminal → LogsFlags → Bool → Bool → List LogFileInfo → Option Bytes
unfolding read_last_n_lines initial_lines
tail_logs t f many first [] = some []
tail_logs t f many first (l ∷ targets) =
    shown (record { show_err_only = f.show_err_only; use_color = t.is_terminal })
      (banner t many first l) (read_last_n_lines (t.file_bytes l.path) f.lines)
      (tail_logs t f many false targets)

abbrev pub exit_zero : Option Bytes → LogsRun
exit_zero none = crashed
exit_zero (some out) = printed 0 out

abbrev pub with_header : Option Bytes → Option Bytes
with_header none = none
with_header (some out) = some (bytes "Discovered Log Files:\n" ++ out)

abbrev pub check_result : Option (ℕ × List CheckLine) → LogsRun
check_result none = crashed
check_result (some (code, report)) = checked code report

unfoldable pub run_targets : Terminal → LogsFlags → List LogFileInfo → LogsRun
unfolding follow_logs tail_logs
run_targets t f [] = no_targets
run_targets t f (l ∷ targets) =
    let options : Options = record { show_err_only = f.show_err_only; use_color = t.is_terminal } in
    if f.follow
    then exit_zero (follow_logs options f.lines t.start (l ∷ targets) t.ticks)
    else exit_zero (tail_logs t f (ltb 1 (length (l ∷ targets))) true (l ∷ targets))

-- `RunLogs`.
unfoldable pub run_logs : Terminal → Info → LogsFlags → LogsRun
unfolding discover_logs list_logs check_errors targets_of run_targets
run_logs t info f =
    let logs = discover_logs t.machine info f.conf_path f.data_dir in
    if not (config_loads t.machine (resolved_conf t.machine info f.conf_path))
    then crashed
    else if f.list_mode
    then exit_zero (with_header (list_logs t logs))
    else if f.check_mode
    then check_result (check_errors t.file_bytes logs)
    else run_targets t f (targets_of f logs)

-- The configuration's `http.host` and `http.port`, and what `client.Get` of an address answers.
pub data Answer : Type 0 where
  no_answer : Bytes → Answer
  answered : ℕ → Bytes → Answer

pub record Endpoint : Type 0 where
  pub http_host : String → String
  pub http_port : String → ℕ
  pub get : Bytes → Answer

pub data Service : Type 0 where
  down : Bytes → Service
  running : Bytes → Service
  unhealthy : ℕ → Bytes → Service

abbrev pub service_of : Answer → Service
service_of (no_answer e) = down e
service_of (answered code body) =
    if eqb code 200 then running (trim_bytes body) else unhealthy code (trim_bytes body)

-- A file with its error lines among the last two hundred, where it exists.
abbrev pub error_count : Option (ℕ × List Bytes) → Option ℕ
error_count none = none
error_count (some (count, samples)) = some count

abbrev pub log_summary : Terminal → LogFileInfo → LogFileInfo × Option ℕ
log_summary t l =
    (l, if l.exists then error_count (scan_errors (t.file_bytes l.path) (pos 200)) else none)

unfoldable pub summaries : Terminal → List LogFileInfo → List (LogFileInfo × Option ℕ)
unfolding scan_errors
summaries t [] = []
summaries t (l ∷ logs) = log_summary t l ∷ summaries t logs

pub record Status : Type 0 where
  pub version : String
  pub config_file : String
  pub config_status : String
  pub data_dir : String
  pub data_status : String
  pub health_url : Bytes
  pub service : Service
  pub log_files : List (LogFileInfo × Option ℕ)

abbrev pub host_of : Endpoint → Machine → String → String
host_of e m conf =
    if file_exists m conf && not (e.http_host conf == "") then e.http_host conf else "127.0.0.1"

abbrev pub port_of : Endpoint → Machine → String → ℕ
port_of e m conf =
    if file_exists m conf && not (eqb (e.http_port conf) 0) then e.http_port conf else 2525

abbrev pub url_of : String → ℕ → Bytes
url_of host port =
    bytes "http://" ++ (bytes host ++ (bytes ":" ++ (decimal port ++ bytes "/health")))

abbrev pub or_default : String → String → String → String
or_default flag info_default default_value =
    if flag == "" then first_non_empty (info_default ∷ (default_value ∷ [])) else flag

-- What `RunStatus` prints; its exit code is 0. `none` is a run-time panic.
unfoldable pub run_status : Terminal → Endpoint → Info → String → String → Option Status
unfolding discover_logs summaries trim_bytes decimal
run_status t e info conf_path data_dir =
    let m = t.machine in
    let conf = or_default conf_path info.default_config_path "config/all-in-one.example.yml" in
    let dir = or_default data_dir info.default_data_dir "data" in
    let url = url_of (host_of e m conf) (port_of e m conf) in
    if not (config_loads m conf)
    then none
    else some (record {
      version = first_non_empty (info.version ∷ ("dev" ∷ []));
      config_file = conf;
      config_status = exists_str m conf;
      data_dir = dir;
      data_status = exists_str m dir;
      health_url = url;
      service = service_of (e.get url);
      log_files = summaries t (discover_logs m info conf dir);
    })
