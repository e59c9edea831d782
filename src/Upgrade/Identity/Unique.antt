-- ===== src/Upgrade/Identity/Unique.antt =====
-- internal/upgrade/identity.go: the plist that `servicePlist` returns, among those it reads.
use tokenlive_standalone.Prelude.{
  Bool, true, false, String, List, [], ◌∷◌, some, ◌≡◌, refl, ap, subst, inl, inr, arith, base, join,
  without_suffix, Memᴰ, Bool-cases, Option-cases,
}
use tokenlive_standalone.Upgrade.Identity.{
  Machine, manages, matches, or_whole, sole_match, service_plist,
}

module _ (m : Machine) (agents opt_bin : String) where
  -- A member that manages is among the matches.
  no_match :
      (es : List (String × Bool)) {e : String × Bool}
      → matches m agents opt_bin es ≡ []
      → Memᴰ e es
      → manages m agents opt_bin e ≡ true
      → ⊥
  unfolding matches
  no_match [] h mem y = elim mem [ ]
  no_match (x ∷ es) h (Memᴰ.head q) y =
      let z : manages m agents opt_bin x ≡ true =
        subst (λ a. manages m agents opt_bin a ≡ true) q y in
      absurd (ground (arith, z, h))
  no_match (x ∷ es) h (Memᴰ.tail mem) y = elim (Bool-cases (manages m agents opt_bin x)) [
    | inl z ↦ absurd (ground (arith, z, h))
    | inr z ↦ no_match es (ground (arith, z, h)) mem y
  ]

  sole :
      (es : List (String × Bool)) (x other : String × Bool)
      → matches m agents opt_bin es ≡ []
      → Memᴰ other (x ∷ es)
      → manages m agents opt_bin other ≡ true
      → other ≡ x
  sole es x other rest (Memᴰ.head q) y = q
  sole es x other rest (Memᴰ.tail mem) y = absurd (no_match es rest mem y)

  behind :
      (es : List (String × Bool)) (x e other : String × Bool)
      → manages m agents opt_bin x ≡ false
      → ((o : String × Bool) → Memᴰ o es → manages m agents opt_bin o ≡ true → o ≡ e)
      → Memᴰ other (x ∷ es)
      → manages m agents opt_bin other ≡ true
      → other ≡ e
  behind es x e other n others (Memᴰ.head q) y =
      absurd (cc (n, subst (λ a. manages m agents opt_bin a ≡ true) q y))
  behind es x e other n others (Memᴰ.tail mem) y = others other mem y

  -- One match: the entry that manages, and every entry that manages is it.
  only_match :
      (es : List (String × Bool)) (path : String)
      → matches m agents opt_bin es ≡ path ∷ []
      → (e : String × Bool) × Memᴰ e es
        × (manages m agents opt_bin e ≡ true)
        × (path ≡ join agents e.0)
        × ((other : String × Bool)
            → Memᴰ other es
            → manages m agents opt_bin other ≡ true
            → other ≡ e)
  unfolding matches
  only_match [] path h = absurd (cc h)
  only_match (x ∷ es) path h = elim (Bool-cases (manages m agents opt_bin x)) [
    | inl y ↦
        let rest : matches m agents opt_bin es ≡ [] = ground (arith, y, h) in
        (x, Memᴰ.head refl, y, ground (arith, y, h), λ other. sole es x other rest)
    | inr y ↦
        let (e, mem, is, at, others) = only_match es path (ground (arith, y, h)) in
        (e, Memᴰ.tail mem, is, at, λ other. behind es x e other y others)
  ]

-- The entry that `servicePlist` answers with.
pub record IsSole (m : Machine) (home opt_bin label path : String) : Type 0 where
  pub entries : List (String × Bool)
  pub listed : m.read_dir (join (join home "Library") "LaunchAgents") ≡ some entries
  pub entry : String × Bool
  pub member : Memᴰ entry entries
  pub managing : manages m (join (join home "Library") "LaunchAgents") opt_bin entry ≡ true
  pub path_is : path ≡ join (join (join home "Library") "LaunchAgents") entry.0
  pub label_is : label ≡ or_whole m (base path) (without_suffix ".plist" (base path))
  pub unique :
      (other : String × Bool)
      → Memᴰ other entries
      → manages m (join (join home "Library") "LaunchAgents") opt_bin other ≡ true
      → other ≡ entry

sole_of :
    (m : Machine) (found : List String) (label path : String)
    → sole_match m found ≡ some (label, path)
    → (found ≡ path ∷ []) × (label ≡ or_whole m (base path) (without_suffix ".plist" (base path)))
sole_of m [] label path h = absurd (cc h)
sole_of m (x ∷ []) label path h =
    let at : x ≡ path = cc h in
    (
      ap (λ p. p ∷ []) at,
      subst (λ p. label ≡ or_whole m (base p) (without_suffix ".plist" (base p))) at (cc h),
    )
sole_of m (x ∷ (y ∷ rest)) label path h = absurd (cc h)

-- If `servicePlist` reports no error, its plist is in the user's directory and runs the binary, no
-- other file of the directory does, and the label is the name of the file without its suffix.
pub service_plist-IsSole :
    (m : Machine) (home opt_bin label path : String)
    → service_plist m home opt_bin ≡ some (label, path)
    → IsSole m home opt_bin label path
unfolding service_plist
service_plist-IsSole m home opt_bin label path h =
    let agents = join (join home "Library") "LaunchAgents" in
    elim (Option-cases (m.read_dir agents)) [
      | inl e ↦ absurd (ground (arith, e, h))
      | inr (entries, e) ↦
          let (one, named) =
            sole_of m (matches m agents opt_bin entries) label path (ground (arith, e, h)) in
          let (entry, member, managing, at, unique) =
            only_match m agents opt_bin entries path one in
          record {
            entries = entries;
            listed = e;
            entry = entry;
            member = member;
            managing = managing;
            path_is = at;
            label_is = named;
            unique = unique;
          }
    ]
