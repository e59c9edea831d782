-- ===== src/Upgrade/Safety/Times.antt =====
-- Blocking files as time goes on.
use tokenlive_standalone.Prelude.{ℕ, ◌≤◌, ◌≡◌, true, arith}
use tokenlive_standalone.Upgrade.Host.{Host}
use tokenlive_standalone.Upgrade.Disk.{TaskFile, absent, unreadable, corrupt, holds, World}
use tokenlive_standalone.Upgrade.Safety.{file_blocks}
use tokenlive_standalone.Upgrade.Safety.Prepare.{Safe}

file_blocks-earlier :
    (h : Host) (now later : ℕ) (f : TaskFile)
    → now ≤ later
    → file_blocks h later f ≡ true
    → file_blocks h now f ≡ true
file_blocks-earlier h now later absent l b = b
file_blocks-earlier h now later (unreadable x) l b = b
file_blocks-earlier h now later (corrupt x) l b = b
file_blocks-earlier h now later (holds t) l b = ground arith

pub Safe-later :
    (h : Host) (now later : ℕ) (w : World) → now ≤ later → Safe h now w → Safe h later w
Safe-later h now later w l s = record {
  shape = s.shape;
  one = λ i j bi bj.
      s.one i j (file_blocks-earlier h now later _ l bi) (file_blocks-earlier h now later _ l bj);
}
