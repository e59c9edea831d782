-- ===== src/Witnesses/Identity.antt =====
-- A machine with the formula of the tap installed, run by the service of one plist.
use tokenlive_standalone.Prelude.{
  true, false, String, List, ◌∷◌, [], some, none, refl, ◌==◌, if◌then◌else◌, ◌||◌, bytes,
  same_bytes, all_digits, value_from, base, dir, join, without_suffix, trim_space,
}
use tokenlive_standalone.Upgrade.Command.{printed}
use tokenlive_standalone.Upgrade.Launchd.{list_pid, print_exists}
use tokenlive_standalone.Upgrade.Plist.{
  Token, start_tag, end_tag, char_data, plist_program, scan, start_element, end_element,
}
use tokenlive_standalone.Upgrade.Identity.{
  Machine, Prober, Installation, service_plist, manages, matches, probe, installation, require,
  given, ◌>>=◌, ◌>>◌,
}
use tokenlive_standalone.Upgrade.Identity.Unique.{IsSole, service_plist-IsSole}
use tokenlive_standalone.Upgrade.Identity.Sound.{IsVerified, probe-IsVerified}

abbrev job_tokens : List Token
job_tokens =
    start_tag "plist"
    ∷ (start_tag "dict"
        ∷ (start_tag "key"
            ∷ (char_data "Program"
                ∷ (end_tag "key"
                    ∷ (start_tag "string"
                        ∷ (char_data "/brew/opt/tokenlive/bin/tokenlive"
                            ∷ (end_tag "string" ∷ (end_tag "dict" ∷ (end_tag "plist" ∷ [])))))))))

abbrev pub installed_machine : Machine
installed_machine = record {
  is_darwin = true;
  executable = "/brew/opt/tokenlive/bin/tokenlive";
  eval_symlinks = λ _. some "/brew/Cellar/tokenlive/1.0.0/bin/tokenlive";
  read_file = λ _. some "homebrew";
  is_directory = λ path.
      if path == "/brew/bin/brew"
        || path == "/brew/Library/Taps/tokenlive/homebrew-tokenlive/Formula/tokenlive.rb"
      then some false
      else none;
  read_dir = λ _. some (("notes.txt", false) ∷ (("homebrew.mxcl.tokenlive.plist", false) ∷ []));
  user_home = some "/Users/admin";
  pid = 77;
  decode_xml = λ _. job_tokens;
  domain_of = λ _. "gui/501";
}

abbrev a_prober : Prober
a_prober = record {
  executable = "";
  user_home = "";
  uid = 501;
  euid = 501;
  list_pid = some (λ _. list_pid (printed (bytes "77\t0\thomebrew.mxcl.tokenlive\n")));
  domain_printed = some (λ _ _. print_exists (printed []));
}

abbrev the_path : String
the_path = "/Users/admin/Library/LaunchAgents/homebrew.mxcl.tokenlive.plist"

service_plist-IsSole_example :
    IsSole installed_machine "/Users/admin" "/brew/opt/tokenlive/bin/tokenlive"
      "homebrew.mxcl.tokenlive" the_path
unfolding service_plist manages matches join base without_suffix plist_program scan trim_space
    start_element end_element
service_plist-IsSole_example =
    service_plist-IsSole installed_machine "/Users/admin" "/brew/opt/tokenlive/bin/tokenlive"
      "homebrew.mxcl.tokenlive" the_path refl

abbrev the_installation : Installation
unfolding join
the_installation =
    installation installed_machine a_prober 8080 "/brew/Cellar/tokenlive/1.0.0" "/brew"
      "/Users/admin" ("homebrew.mxcl.tokenlive", the_path)

probe-IsVerified_example : IsVerified installed_machine a_prober the_installation
unfolding probe service_plist manages matches join base dir without_suffix plist_program scan
    trim_space require given ◌>>=◌ ◌>>◌ list_pid print_exists start_element end_element same_bytes
    all_digits value_from
probe-IsVerified_example = probe-IsVerified installed_machine a_prober 8080 the_installation refl
