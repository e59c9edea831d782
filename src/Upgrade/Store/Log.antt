-- ===== src/Upgrade/Store/Log.antt =====
-- The bound on a task's log, and on the texts kept in a record.
use mathlib.Core.List.{append-nil}
use mathlib.Core.Option
use tokenlive_standalone.Prelude.{
  ℕ, zero, suc, ◌-◌, ◌≤◌, ◌<◌, String, ◌≡◌, refl, ◌∙◌, ap, Option, some, List, [], ◌∷◌, ◌++◌, arith,
  eq_refl, leb, length, take, drop, length-append, length-take, length-drop, inl, inr, Bool-cases,
  if◌then◌else◌,
}
use tokenlive_standalone.Upgrade.Disk.{Dir, World, ok, lookup_dir, write, write_file_atomic}
use tokenlive_standalone.Upgrade.Disk.Laws.{lookup_dir-set_dir}
use tokenlive_standalone.Upgrade.Store.{
  truncate, capped, cap_log_file, log_truncated_marker, max_task_log_bytes,
}

take-append-drop {ℓ} : {A : Type ℓ} (n : ℕ) (xs : List A) → take n xs ++ drop n xs ≡ xs
take-append-drop zero xs = refl
take-append-drop (suc n) [] = refl
take-append-drop (suc n) (x ∷ xs) = rw (take-append-drop n xs)

length-eq-zero {ℓ} : {A : Type ℓ} (xs : List A) → length xs ≡ 0 → xs ≡ []
length-eq-zero [] e = refl
length-eq-zero (x ∷ xs) e = absurd (omega arith)

drop_all {ℓ} : {A : Type ℓ} (n : ℕ) (xs : List A) → length xs ≤ n → xs ++ drop n xs ≡ xs
drop_all n xs h =
    ap (λ r. xs ++ r) (length-eq-zero (drop n xs) (omega (arith, length-drop n xs))) ∙ append-nil xs

-- A cut text has at most the given length and is the beginning of the text; a short one is kept.
pub truncate_lem :
    (s : List ℕ) (n : ℕ) → (length (truncate s n) ≤ n) × (truncate s n ++ drop n s ≡ s)
unfolding truncate
truncate_lem s n = elim (Bool-cases (leb (length s) n)) [
  | inl e ↦ rw e (ground arith, drop_all n s (ground arith))
  | inr e ↦ rw e (omega (arith, length-take n s), take-append-drop n s)
]

-- A log over the limit becomes exactly as long as the limit: the marker, and then the last bytes.
pub capped_lem :
    (limit : ℕ) (log : List ℕ)
    → length log_truncated_marker ≤ limit
    → limit < length log
    → let keep = limit - length log_truncated_marker in
      let gone = length log - keep in
      (length (capped limit log) ≡ limit)
      × (capped limit log ≡ log_truncated_marker ++ drop gone log)
      × (take gone log ++ drop gone log ≡ log)
unfolding capped
capped_lem limit log fits over = (
  omega (
    arith,
    length-append log_truncated_marker
        (drop (length log - (limit - length log_truncated_marker)) log),
    length-drop (length log - (limit - length log_truncated_marker)) log,
  ),
  refl,
  take-append-drop (length log - (limit - length log_truncated_marker)) log,
)

abbrev pub log_at : String → World → Option (List ℕ)
log_at id w = Option.map (λ (d : Dir). d.log) (lookup_dir id w.dirs)

within : List ℕ → List ℕ
within log = if leb (length log) max_task_log_bytes then log else capped max_task_log_bytes log

within-le : (log : List ℕ) → length (within log) ≤ max_task_log_bytes
unfolding within
within-le log = elim (Bool-cases (leb (length log) max_task_log_bytes)) [
  | inl e ↦ rw e (ground arith)
  | inr e ↦ rw e (omega (arith, (capped_lem max_task_log_bytes log (omega arith) (ground arith)).0))
]

log_at-cap_log_file :
    (id : String) (w : World) (d : Dir)
    → (cap_log_file id w).0 ≡ ok tt
    → lookup_dir id w.dirs ≡ some d
    → log_at id (cap_log_file id w).1 ≡ some (within d.log)
unfolding cap_log_file within write_file_atomic write
log_at-cap_log_file id w d e p = ground (
  arith,
  eq_refl id,
  lookup_dir-set_dir id id (record d { log = capped max_task_log_bytes d.log }) w.dirs,
)

-- If the task has a directory and `capLogFile` reports no error, the log is within the limit
-- afterwards; one that was within it before is as it was, and a longer one is replaced by its
-- capped text.
pub cap_log_file_lem :
    (id : String) (w : World) (d : Dir)
    → (cap_log_file id w).0 ≡ ok tt
    → lookup_dir id w.dirs ≡ some d
    → (after : List ℕ) × (log_at id (cap_log_file id w).1 ≡ some after)
      × (length after ≤ max_task_log_bytes)
      × (length d.log ≤ max_task_log_bytes → after ≡ d.log)
      × (max_task_log_bytes < length d.log → after ≡ capped max_task_log_bytes d.log)
unfolding within
cap_log_file_lem id w d e p = (
  within d.log,
  log_at-cap_log_file id w d e p,
  within-le d.log,
  λ h. ground arith,
  λ h. ground arith,
)
