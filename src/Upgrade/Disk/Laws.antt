-- ===== src/Upgrade/Disk/Laws.antt =====
-- The operations of the map from identifiers to directories.
use tokenlive_standalone.Prelude.{
  String, ◌≡◌, refl, none, some, [], ◌∷◌, ◌==◌, arith, eq_iff, if◌then◌else◌,
}
use tokenlive_standalone.Upgrade.Disk.{Dir, Dirs, lookup_dir, set_dir, remove_dir}

pub lookup_dir-set_dir :
    (k j : String) (d : Dir) (ds : Dirs)
    → lookup_dir j (set_dir k d ds) ≡ (if k == j then some d else lookup_dir j ds)
unfolding lookup_dir set_dir
lookup_dir-set_dir k j d [] = refl
lookup_dir-set_dir k j d ((n, x) ∷ ds) =
    ground (arith, eq_iff n k, eq_iff n j, eq_iff k j, lookup_dir-set_dir k j d ds)

pub lookup_dir-remove_dir :
    (k j : String) (ds : Dirs)
    → lookup_dir j (remove_dir k ds) ≡ (if k == j then none else lookup_dir j ds)
unfolding lookup_dir remove_dir
lookup_dir-remove_dir k j [] = ground arith
lookup_dir-remove_dir k j ((n, x) ∷ ds) =
    ground (arith, eq_iff n k, eq_iff n j, eq_iff k j, lookup_dir-remove_dir k j ds)
