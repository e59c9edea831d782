-- ===== src/Cli/Discover/Unique.antt =====
-- What `DiscoverLogs` lists.
use tokenlive_standalone.Prelude.{
  Bool, true, false, false, ◌||◌, String, List, [], ◌∷◌, ◌++◌, Option, none, some, ◌≡◌, ◌≢◌, refl,
  inl, inr, arith, eq_iff, ◌==◌, Bool-cases, All, All-append, join, if◌then◌else◌,
}
use tokenlive_standalone.Cli.Errors.{LogFileInfo}
use tokenlive_standalone.Cli.Discover.{
  Info, FileInfo, Machine, has_path, paths_of, log_file_info, add, add_service, add_config,
  discover_logs, detect_brew_prefix, resolved_data, resolved_conf, in_data, file_exists,
}

-- No path stands twice.
abbrev pub AllDistinct : List LogFileInfo → Type 0
AllDistinct [] = Unit
AllDistinct (l ∷ logs) = (has_path (paths_of logs) l.path ≡ false) × AllDistinct logs

-- An entry has a path, and exists exactly when the file system has its path.
abbrev pub IsStated : Machine → LogFileInfo → Type 0
IsStated m l = (l.path ≢ "") × (l ≡ log_file_info l.tag l.path (m.stat l.path))

pub record IsListing (m : Machine) (logs : List LogFileInfo) : Type 0 where
  pub distinct : AllDistinct logs
  pub stated : All (IsStated m) logs

has_path-append :
    (logs : List LogFileInfo) (l : LogFileInfo) (path : String)
    → has_path (paths_of logs) path ≡ false
    → (l.path == path) ≡ false
    → has_path (paths_of (logs ++ (l ∷ []))) path ≡ false
has_path-append [] l path h n = ground (arith, n)
has_path-append (x ∷ logs) l path h n =
    ground (arith, h, has_path-append logs l path (ground (arith, h)) n)

AllDistinct-append :
    (logs : List LogFileInfo) (l : LogFileInfo)
    → AllDistinct logs
    → has_path (paths_of logs) l.path ≡ false
    → AllDistinct (logs ++ (l ∷ []))
AllDistinct-append [] l d h = (refl, tt)
AllDistinct-append (x ∷ logs) l d h =
    let other : (l.path == x.path) ≡ false =
      ground (arith, h, eq_iff x.path l.path, eq_iff l.path x.path) in
    (has_path-append logs l x.path d.0 other, AllDistinct-append logs l d.1 (ground (arith, h)))

path_of : (tag path : String) (o : Option FileInfo) → (log_file_info tag path o).path ≡ path
path_of tag path none = refl
path_of tag path (some st) = refl

tag_of : (tag path : String) (o : Option FileInfo) → (log_file_info tag path o).tag ≡ tag
tag_of tag path none = refl
tag_of tag path (some st) = refl

IsListing-add :
    (m : Machine) (tag path : String) (logs : List LogFileInfo)
    → IsListing m logs
    → IsListing m (add m tag path logs)
unfolding add
IsListing-add m tag path logs s =
    let l = log_file_info tag path (m.stat path) in
    let p = path_of tag path (m.stat path) in
    elim (Bool-cases (path == "" || has_path (paths_of logs) path)) [
      | inl y ↦ rw y s
      | inr y ↦
          let fresh : has_path (paths_of logs) path ≡ false = ground (arith, y) in
          let named : path ≢ "" = λ e. absurd (ground (arith, y, e, eq_iff path "")) in
          rw y (record {
            distinct = AllDistinct-append logs l s.distinct (rw p fresh);
            stated =
                All-append (IsStated m) logs (l ∷ []) s.stated
                  ((rw p named, rw (p, tag_of tag path (m.stat path)) refl), tt);
          })
    ]

-- `DiscoverLogs` lists no path twice and none that is empty, and each entry says of its path what
IsListing-none : (m : Machine) → IsListing m []
IsListing-none m = record { distinct = tt; stated = tt }

IsListing-if :
    (m : Machine) (b : Bool) (xs ys : List LogFileInfo)
    → IsListing m xs
    → IsListing m ys
    → IsListing m (if b then xs else ys)
IsListing-if m true xs ys p q = p
IsListing-if m false xs ys p q = q

-- the file system says.
pub discover_logs-IsListing :
    (m : Machine) (info : Info) (conf_path data_dir : String)
    → IsListing m (discover_logs m info conf_path data_dir)
unfolding discover_logs
discover_logs-IsListing m info conf_path data_dir =
    let root = resolved_data m info data_dir in
    let conf = resolved_conf m info conf_path in
    config root conf _ (
      IsListing-add m "app-log" (join root "logs/tokenlive.log") _
        (service (detect_brew_prefix m info.default_config_path)))
  where
    service : (prefix : String) → IsListing m (add_service m prefix [])
    service prefix =
        let err = add m "service-err" (join prefix "var/log/tokenlive.err.log") [] in
        let out = add m "service-out" (join prefix "var/log/tokenlive.log") err in
        let listing = IsListing-add m "service-out" (join prefix "var/log/tokenlive.log") err (
          IsListing-add m "service-err" (join prefix "var/log/tokenlive.err.log") []
            (IsListing-none m)) in
        IsListing-if m (prefix == "") [] out (IsListing-none m) listing

    config :
        (root conf : String) (logs : List LogFileInfo)
        → IsListing m logs
        → IsListing m (add_config m root conf logs)
    config root conf logs s =
        let file = m.log_file_name conf in
        let more = add m "config-log" (in_data m root file) logs in
        let added = IsListing-add m "config-log" (in_data m root file) logs s in
        let named = IsListing-if m (file == "") logs more s added in
        IsListing-if m (conf == "") logs _ s (IsListing-if m (file_exists m conf) _ logs named s)
