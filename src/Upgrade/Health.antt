-- ===== src/Upgrade/Health.antt =====
-- internal/upgrade/verify.go: the handshake with the restarted service. `Reply` is what the request
-- to /health came to; `resolve` is `filepath.EvalSymlinks`, `none` where it fails.
use text.Mathlib.Text.{starts_with}
use tokenlive_standalone.Prelude.{
  ℕ, ◌++◌, leb, take, length, bytes, Bytes, trim_bytes, keep_bytes, decimal, ◌<◌, ◌≡◌, refl, ◌≢◌,
  ◌↔◌, ◌⊎◌, String, Bool, true, not, ◌&&◌, ◌||◌, Option, none, some, ◌==◌, eqb, ltb, if◌then◌else◌,
  arith, Option-cases, inl, inr, eq_iff, trim_v, trim_space, text_append,
}

pub record Report : Type 0 where
  pub status : String
  pub version : String
  pub install_channel : String
  pub executable : String

pub data Reply : Type 0 where
  bad_request unreachable bad_body : Reply
  status_code : ℕ → Reply
  reported : Report → Reply

pub data Reason : Type 0 where
  unknown_port no_request no_answer unreadable_body not_ok channel_mismatch no_service_pid : Reason
  service_pid_unchanged no_executable executable_unresolved executable_mismatch : Reason
  status_is : ℕ → Reason
  version_is : String → Reason

-- `sanitize`: at most forty bytes of the trimmed text, the printable ones.
unfoldable pub sanitize : String → Bytes
unfolding trim_bytes keep_bytes
sanitize s =
    let t = trim_bytes (bytes s) in
    keep_bytes (λ c. leb 32 c && leb c 126) (if ltb 40 (length t) then take 40 t else t)

abbrev pub reason_text : Reason → Bytes
reason_text unknown_port = bytes "unknown_port"
reason_text no_request = bytes "bad_request"
reason_text no_answer = bytes "unreachable"
reason_text unreadable_body = bytes "bad_body"
reason_text not_ok = bytes "not_ok"
reason_text channel_mismatch = bytes "channel_mismatch"
reason_text no_service_pid = bytes "no_service_pid"
reason_text service_pid_unchanged = bytes "service_pid_unchanged"
reason_text no_executable = bytes "no_executable"
reason_text executable_unresolved = bytes "executable_unresolved"
reason_text executable_mismatch = bytes "executable_mismatch"
reason_text (status_is n) = bytes "status_" ++ decimal n
reason_text (version_is v) = bytes "version_" ++ sanitize v

-- What the confirmed task expects of the service.
pub record Expected : Type 0 where
  pub port : ℕ
  pub target_version : String
  pub keg_version : String
  pub prefix : String
  pub channel : String
  pub service_pid : ℕ
  pub previous_pid : ℕ

unfoldable pub normalize_version : String → String
unfolding trim_v trim_space
normalize_version v = trim_v (trim_space v)

-- `filepath.Join` of a clean prefix with plain names; an empty one is left out.
unfoldable pub keg_root : Expected → String
keg_root x =
    if x.keg_version == ""
    then text_append x.prefix "/Cellar/tokenlive"
    else text_append x.prefix (text_append "/Cellar/tokenlive/" x.keg_version)

abbrev pub in_keg : Expected → String → Bool
in_keg x resolved =
    resolved == text_append (keg_root x) "/bin/tokenlive"
    || starts_with resolved (text_append (keg_root x) "/")

abbrev pub check_resolved : Expected → Option String → Option Reason
check_resolved x none = some executable_unresolved
check_resolved x (some p) = if not (in_keg x p) then some executable_mismatch else none

-- The checks of the report and of the process, in their order; `none` is success.
unfoldable pub check_report : (String → Option String) → Expected → Report → Option Reason
check_report resolve x r =
    if not (r.status == "ok")
    then some not_ok
    else if not (normalize_version r.version == normalize_version x.target_version)
    then some (version_is r.version)
    else if not (x.channel == "") && not (r.install_channel == x.channel)
    then some channel_mismatch
    else if eqb x.service_pid 0
    then some no_service_pid
    else if ltb 0 x.previous_pid && eqb x.service_pid x.previous_pid
    then some service_pid_unchanged
    else if r.executable == ""
    then some no_executable
    else check_resolved x (resolve r.executable)

abbrev pub check_reply : (String → Option String) → Expected → Reply → Option Reason
check_reply resolve x bad_request = some no_request
check_reply resolve x unreachable = some no_answer
check_reply resolve x bad_body = some unreadable_body
check_reply resolve x (status_code n) = some (status_is n)
check_reply resolve x (reported r) = check_report resolve x r

unfoldable pub check : (String → Option String) → Expected → Reply → Option Reason
check resolve x reply = if eqb x.port 0 then some unknown_port else check_reply resolve x reply

-- The report, the processes and the files that prove the target.
pub record Proves (resolve : String → Option String) (x : Expected) (r : Report) : Type 0 where
  pub healthy : r.status ≡ "ok"
  pub right_version : normalize_version r.version ≡ normalize_version x.target_version
  pub right_channel : (x.channel ≡ "") ⊎ (r.install_channel ≡ x.channel)
  pub running : 0 < x.service_pid
  pub restarted : (x.previous_pid ≡ 0) ⊎ (x.service_pid ≢ x.previous_pid)
  pub named : r.executable ≢ ""
  pub inside : (p : String) × (resolve r.executable ≡ some p) × (in_keg x p ≡ true)

module _ (resolve : String → Option String) (x : Expected) (r : Report) where
  report-Proves : check_report resolve x r ≡ none → Proves resolve x r
  unfolding check_report
  report-Proves e = record {
    healthy = ground (arith, eq_iff r.status "ok");
    right_version =
        ground (arith, eq_iff (normalize_version r.version) (normalize_version x.target_version));
    right_channel = ground (arith, eq_iff x.channel "", eq_iff r.install_channel x.channel);
    running = ground arith;
    restarted = ground arith;
    named = ground (arith, eq_iff r.executable "");
    inside = elim (Option-cases (resolve r.executable)) [
      | inl n ↦ absurd (ground arith)
      | inr (p, q) ↦ (p, q, ground arith)
    ];
  }

  Proves-report : Proves resolve x r → check_report resolve x r ≡ none
  unfolding check_report
  Proves-report p =
      let (path, found, inside) = p.inside in
      ground (
        arith,
        p.healthy,
        p.right_version,
        p.right_channel,
        p.running,
        p.restarted,
        p.named,
        eq_iff r.status "ok",
        eq_iff (normalize_version r.version) (normalize_version x.target_version),
        eq_iff x.channel "",
        eq_iff r.install_channel x.channel,
        eq_iff r.executable "",
      )

-- The handshake succeeds exactly when the service has a port and answers 200 with a report that
-- proves the target.
pub check_lem :
    (resolve : String → Option String) (x : Expected) (reply : Reply)
    → (check resolve x reply ≡ none)
      ↔ ((r : Report) × (reply ≡ reported r) × (0 < x.port) × Proves resolve x r)
unfolding check
check_lem resolve x reply = (only reply, λ (r, e, port, p). rw (e, check) (holds_for r port p))
  where
    only :
        (y : Reply)
        → check resolve x y ≡ none
        → (r : Report) × (y ≡ reported r) × (0 < x.port) × Proves resolve x r
    only bad_request e = absurd (ground arith)
    only unreachable e = absurd (ground arith)
    only bad_body e = absurd (ground arith)
    only (status_code n) e = absurd (ground arith)
    only (reported r) e = (r, refl, ground arith, report-Proves resolve x r (ground arith))

    holds_for : (r : Report) → 0 < x.port → Proves resolve x r → check resolve x (reported r) ≡ none
    holds_for r port p = ground (arith, Proves-report resolve x r p)
