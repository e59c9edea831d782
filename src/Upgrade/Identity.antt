-- ===== src/Upgrade/Identity.antt =====
-- internal/upgrade/identity.go: the evidence that the running process is the Homebrew installation
-- that may be upgraded. What the machine answers is the parameter `Machine`; paths are clean.
use tokenlive_standalone.Prelude.{
  ℕ, Bool, true, false, not, ◌&&◌, ◌||◌, String, List, [], ◌∷◌, Option, none, some, ◌==◌, eqb,
  if◌then◌else◌, base, dir, join, without_suffix, trim_space, bytes, decimal, text_append,
}
use tokenlive_standalone.Upgrade.Disk.{Outcome, ok, err}
use tokenlive_standalone.Upgrade.Plist.{Token, Parsed, good, bad, plist_program}
pub mod Unique
pub mod Sound

pub record Machine : Type 0 where
  pub is_darwin : Bool
  pub executable : String  -- `os.Executable`, empty where it fails
  pub eval_symlinks : String → Option String
  pub read_file : String → Option String
  pub is_directory : String → Option Bool  -- `none` where `os.Stat` fails
  pub read_dir : String → Option (List (String × Bool))  -- names, and whether each is a directory
  pub user_home : Option String
  pub pid : ℕ
  pub decode_xml : String → List Token
  pub domain_of : ℕ → String  -- `fmt.Sprintf("gui/%d", uid)`

pub record Prober : Type 0 where
  pub executable : String
  pub user_home : String
  pub uid : ℕ
  pub euid : ℕ
  pub list_pid : Option (String → Outcome (Option ℕ))
  pub domain_printed : Option (String → String → Outcome (Unit {0}))

pub record Installation : Type 0 where
  pub prefix : String
  pub keg : String
  pub opt_bin : String
  pub brew_bin : String
  pub tap_dir : String
  pub formula_path : String
  pub service_label : String
  pub plist_path : String
  pub domain : String
  pub uid : ℕ
  pub home : String
  pub port : ℕ

-- The installation, or the one reason that `fail` reports.
pub data Checked {ℓ} (A : Type ℓ) : Type ℓ where
  passed : A → Checked A
  refused : String → Checked A

infixl 10 ◌>>=◌ ◌>>◌
unfoldable pub ◌>>=◌ {ℓ κ} : {A : Type ℓ} {B : Type κ} → Checked A → (A → Checked B) → Checked B
passed a >>= f = f a
refused r >>= f = refused r

unfoldable pub ◌>>◌ {κ} : {B : Type κ} → Checked (Unit {0}) → Checked B → Checked B
m >> k = m >>= λ _. k

unfoldable pub require : Bool → String → Checked (Unit {0})
require true r = passed tt
require false r = refused r

unfoldable pub given {ℓ} : {A : Type ℓ} → Option A → String → Checked A
given (some a) r = passed a
given none r = refused r

abbrev pub is_file : Option Bool → Bool
is_file (some false) = true
is_file (some true) = false
is_file none = false

abbrev pub is_absent : Option Bool → Bool
is_absent none = true
is_absent (some d) = false

module _ (m : Machine) where
  -- The program of a plist, as `servicePlist` compares it.
  abbrev pub runs_program : String → Parsed String → Bool
  runs_program opt_bin (good program) = program == opt_bin
  runs_program opt_bin (bad e) = false

  -- A file of the directory whose name ends in `.plist` and whose program is the binary.
  unfoldable pub manages : String → String → String × Bool → Bool
  unfolding join plist_program
  manages agents opt_bin (name, is_dir) = elim (without_suffix ".plist" name) [
    | none ↦ false
    | some stem ↦
        not is_dir
        && runs_program opt_bin (plist_program m.decode_xml (m.read_file (join agents name)))
  ]

  unfoldable pub matches : String → String → List (String × Bool) → List String
  unfolding manages
  matches agents opt_bin [] = []
  matches agents opt_bin (e ∷ es) =
      let rest = matches agents opt_bin es in
      if manages agents opt_bin e then join agents e.0 ∷ rest else rest

  abbrev pub or_whole : String → Option String → String
  or_whole s none = s
  or_whole s (some stem) = stem

  abbrev pub sole_match : List String → Option (String × String)
  sole_match (path ∷ []) = some (or_whole (base path) (without_suffix ".plist" (base path)), path)
  sole_match _ = none

  -- `servicePlist`: the label and the path.
  unfoldable pub service_plist : String → String → Option (String × String)
  unfolding matches join base without_suffix
  service_plist home opt_bin =
      let agents = join (join home "Library") "LaunchAgents" in
      elim (m.read_dir agents) [
        | none ↦ none
        | some entries ↦ sole_match (matches agents opt_bin entries)
      ]

  abbrev pub first_text : String → String → String
  first_text s t = if s == "" then t else s

  abbrev pub home_of : Prober → Option String
  home_of p = if p.user_home == "" then m.user_home else some p.user_home

  abbrev pub lists_self : Outcome (Option ℕ) → Bool
  lists_self (ok (some n)) = eqb n m.pid
  lists_self (ok none) = false
  lists_self (err e) = false

  abbrev pub pid_matches : Option (String → Outcome (Option ℕ)) → String → Bool
  pid_matches none label = true
  pid_matches (some list) label = lists_self (list label)

  abbrev pub printed_ok : Outcome (Unit {0}) → Bool
  printed_ok (ok u) = true
  printed_ok (err e) = false

  abbrev pub domain_matches : Option (String → String → Outcome (Unit {0})) → ℕ → String → Bool
  domain_matches none uid label = true
  domain_matches (some print) uid label = printed_ok (print (m.domain_of uid) label)

  abbrev pub has_channel : Option String → Bool
  has_channel none = false
  has_channel (some content) = trim_space content == "homebrew"

  abbrev pub links_to : Option String → String → Bool
  links_to none resolved = false
  links_to (some p) resolved = p == resolved

  abbrev pub in_cellar : String → Bool
  in_cellar keg = base (dir keg) == "tokenlive" && base (dir (dir keg)) == "Cellar"

  abbrev pub opt_of : String → String
  opt_of prefix = join prefix "opt/tokenlive/bin/tokenlive"

  abbrev pub tap_of : String → String
  tap_of prefix = join prefix "Library/Taps/tokenlive/homebrew-tokenlive"

  abbrev pub no_overrides : String → String → Bool
  no_overrides prefix home =
      is_absent (m.is_directory (join prefix ".homebrew/brew.env"))
      && (is_absent (m.is_directory (join home ".homebrew/brew.env"))
          && is_absent (m.is_directory (join home ".config/homebrew/brew.env")))

  abbrev pub installation : Prober → ℕ → String → String → String → String × String → Installation
  installation p port keg prefix home (label, plist_path) = record {
    prefix = prefix;
    keg = keg;
    opt_bin = opt_of prefix;
    brew_bin = join prefix "bin/brew";
    tap_dir = tap_of prefix;
    formula_path = join (tap_of prefix) "Formula/tokenlive.rb";
    service_label = label;
    plist_path = plist_path;
    domain = m.domain_of p.uid;
    uid = p.uid;
    home = home;
    port = port;
  }

  -- `Probe`, in the order of its checks.
  unfoldable pub probe : Prober → ℕ → Checked Installation
  probe p port = do
    require m.is_darwin "os_unsupported"
    require (eqb p.uid p.euid && not (eqb p.uid 0)) "user_context_unsupported"
    let exe = first_text p.executable m.executable
    require (not (exe == "")) "executable_unresolved"
    resolved ← given (m.eval_symlinks exe) "executable_unresolved"
    let keg = dir (dir resolved)
    require (in_cellar keg) "install_unsupported"
    let prefix = dir (dir (dir keg))
    require (has_channel (m.read_file (join keg "libexec/tokenlive-install-channel")))
        "install_unsupported"
    require (is_file (m.is_directory (join prefix "bin/brew"))) "brew_missing"
    require (is_file (m.is_directory (join (tap_of prefix) "Formula/tokenlive.rb"))) "tap_missing"
    home ← given (home_of p) "user_context_unsupported"
    require (no_overrides prefix home) "homebrew_env_overrides"
    require (links_to (m.eval_symlinks (opt_of prefix)) resolved) "opt_link_mismatch"
    managing ← given (service_plist home (opt_of prefix)) "service_identity_unverifiable"
    require (pid_matches p.list_pid managing.0) "service_identity_unverifiable"
    require (domain_matches p.domain_printed p.uid managing.0) "service_identity_unverifiable"
    passed (installation p port keg prefix home managing)
