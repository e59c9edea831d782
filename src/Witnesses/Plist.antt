-- ===== src/Witnesses/Plist.antt =====
-- The job of one upgrade, and a decoder that knows its document.
use tokenlive_standalone.Prelude.{String, List, ◌∷◌, [], ◌≡◌, refl, some}
use tokenlive_standalone.Upgrade.Plist.{Token, good, plist_program}
use tokenlive_standalone.Upgrade.Plist.Render.{
  task_pieces, task_plist, print_pieces, tokens_of, any_markup, has_markup,
}
use tokenlive_standalone.Upgrade.Plist.RoundTrip.{plist_program-task_plist}

abbrev job_args : List String
job_args = "upgrade-worker" ∷ ("--task-id" ∷ ("t1" ∷ []))

abbrev job_file : String
unfolding print_pieces task_pieces
job_file = print_pieces (task_pieces "task" "/keg/tokenlive" job_args "/work" "/work/worker.log")

abbrev decode_job : String → List Token
decode_job _ = tokens_of (task_pieces "task" "/keg/tokenlive" job_args "/work" "/work/worker.log")

plist_program-task_plist_example : plist_program decode_job (some job_file) ≡ good "/keg/tokenlive"
unfolding task_plist any_markup has_markup
plist_program-task_plist_example =
    plist_program-task_plist decode_job "task" "/keg/tokenlive" job_args "/work" "/work/worker.log"
      job_file (λ _. refl) refl refl
