-- ===== src/Upgrade/Identity/Sound.antt =====
-- internal/upgrade/identity.go: what `Probe` checked of an installation that it finds.
use tokenlive_standalone.Prelude.{
  ℕ, ◌<◌, Bool, true, false, String, Option, none, some, ◌≡◌, refl, ap, subst, arith, eq_iff, dir,
  join,
}
use tokenlive_standalone.Upgrade.Identity.{
  Machine, Prober, Installation, Checked, passed, refused, ◌>>=◌, ◌>>◌, require, given, is_file,
  first_text, home_of, pid_matches, domain_matches, has_channel, links_to, in_cellar, opt_of,
  no_overrides, installation, probe,
}
use tokenlive_standalone.Upgrade.Identity.Unique.{IsSole, service_plist-IsSole}

-- A passed requirement holds, and the checks behind it passed.
require-passed {ℓ} :
    {A : Type ℓ} (b : Bool) (r : String) (rest : Checked A) {a : A}
    → (require b r >> rest) ≡ passed a
    → (b ≡ true) × (rest ≡ passed a)
unfolding require ◌>>◌ ◌>>=◌
require-passed true r rest h = (refl, h)
require-passed false r rest h = absurd (cc h)

given-passed {ℓ κ} :
    {A : Type ℓ} {B : Type κ} (o : Option A) (r : String) (f : A → Checked B) {b : B}
    → (given o r >>= f) ≡ passed b
    → (a : A) × (o ≡ some a) × (f a ≡ passed b)
unfolding given ◌>>=◌
given-passed none r f h = absurd (cc h)
given-passed (some a) r f h = (a, refl, h)

-- The evidence for an installation.
pub record IsVerified (m : Machine) (p : Prober) (i : Installation) : Type 0 where
  pub darwin : m.is_darwin ≡ true
  pub not_elevated : p.uid ≡ p.euid
  pub not_root : 0 < p.uid
  pub resolved : String
  pub resolves : m.eval_symlinks (first_text m p.executable m.executable) ≡ some resolved
  pub keg_is : i.keg ≡ dir (dir resolved)
  pub prefix_is : i.prefix ≡ dir (dir (dir i.keg))
  pub cellar : in_cellar m i.keg ≡ true
  pub channel : has_channel m (m.read_file (join i.keg "libexec/tokenlive-install-channel")) ≡ true
  pub brew : m.is_directory i.brew_bin ≡ some false
  pub tap : m.is_directory i.formula_path ≡ some false
  pub home_is : home_of m p ≡ some i.home
  pub plain_brew : no_overrides m i.prefix i.home ≡ true
  pub linked : m.eval_symlinks i.opt_bin ≡ some resolved
  pub sole : IsSole m i.home i.opt_bin i.service_label i.plist_path
  pub itself : pid_matches m p.list_pid i.service_label ≡ true
  pub in_domain : domain_matches m p.domain_printed p.uid i.service_label ≡ true

-- What passed, or the default.
or_default {ℓ} : {A : Type ℓ} → A → Checked A → A
or_default d (passed a) = a
or_default d (refused r) = d

same_passed {ℓ} : {A : Type ℓ} {a b : A} → passed a ≡ passed b → a ≡ b
unfolding or_default
same_passed {a = a} h = ap (or_default a) h

file_found : (o : Option Bool) → is_file o ≡ true → o ≡ some false
file_found none h = absurd (cc h)
file_found (some true) h = absurd (cc h)
file_found (some false) h = refl

link_found : (m : Machine) (o : Option String) (r : String) → links_to m o r ≡ true → o ≡ some r
link_found m none r h = absurd (cc h)
link_found m (some p) r h = ground (arith, h, eq_iff p r)

-- If `Probe` finds an installation, all of its evidence holds: the user, the keg of the resolved
-- executable, the channel's marker, the tools and the formula, no overriding configuration, the
-- link to the running binary, the only plist that runs it, and, where they are asked, launchd's
-- process and domain.
pub probe-IsVerified :
    (m : Machine) (p : Prober) (port : ℕ) (i : Installation)
    → probe m p port ≡ passed i
    → IsVerified m p i
unfolding probe
probe-IsVerified m p port i h =
    let (darwin, h1) = require-passed _ _ _ h in
    let (user, h2) = require-passed _ _ _ h1 in
    let (exe, h3) = require-passed _ _ _ h2 in
    let (resolved, resolves, h4) = given-passed _ _ _ h3 in
    let (cellar, h5) = require-passed _ _ _ h4 in
    let (channel, h6) = require-passed _ _ _ h5 in
    let (brew, h7) = require-passed _ _ _ h6 in
    let (tap, h8) = require-passed _ _ _ h7 in
    let (home, home_is, h9) = given-passed _ _ _ h8 in
    let (plain, h10) = require-passed _ _ _ h9 in
    let (linked, h11) = require-passed _ _ _ h10 in
    let (managing, found, h12) = given-passed _ _ _ h11 in
    let (itself, h13) = require-passed _ _ _ h12 in
    let (in_domain, h14) = require-passed _ _ _ h13 in
    let prefix = dir (dir (dir (dir (dir resolved)))) in
    let same : installation m p port (dir (dir resolved)) prefix home managing ≡ i =
      same_passed h14 in
    subst (λ j. IsVerified m p j) same
      (record {
        darwin = darwin;
        not_elevated = ground (arith, user);
        not_root = ground (arith, user);
        resolved = resolved;
        resolves = resolves;
        keg_is = refl;
        prefix_is = refl;
        cellar = cellar;
        channel = channel;
        brew = file_found _ brew;
        tap = file_found _ tap;
        home_is = home_is;
        plain_brew = plain;
        linked = link_found m _ resolved linked;
        sole = service_plist-IsSole m home (opt_of m prefix) managing.0 managing.1 found;
        itself = itself;
        in_domain = in_domain;
      })
