-- ===== src/Sessions/Tests.antt =====
-- Job journals at concrete inputs (src/lib.rs, module `sessions`).
use devicelane.Shared.{◌+◌, ◌≡◌, [], ◌∷◌, List, drop, length, ltb, if◌then◌else◌, ok, err}
use devicelane.Sessions.Journal.{cursor_ahead, new, resume, execute_once}
use devicelane.Sessions.Resume.{
  Call, appended, executed, run, history, resume-run, execute_once_again,
}

abbrev calls : List Call
calls =
    appended "job-1" "started" []
    ∷ executed "request-1" (record { job_id = "job-1" })
    ∷ appended "job-2" "started" []
    ∷ appended "job-1" "ended" (7 ∷ [])
    ∷ []

resume-run_example : resume (run new calls) "job-1" 1 ≡ (
    if ltb (length (history "job-1" 0 calls)) 1
    then err cursor_ahead
    else ok (drop 1 (history "job-1" 0 calls)))
resume-run_example = resume-run calls "job-1" 1

execute_once_again_example :
    execute_once
      (run (execute_once new "request-2" (λ n. (n + 1, record { job_id = "job-2" })) 4).0.0 calls)
      "request-2"
      (λ n. (n + 10, record { job_id = "job-3" }))
      5
    ≡ (
      (
        run (execute_once new "request-2" (λ n. (n + 1, record { job_id = "job-2" })) 4).0.0 calls,
        5,
      ),
      (execute_once new "request-2" (λ n. (n + 1, record { job_id = "job-2" })) 4).1,
    )
execute_once_again_example =
    execute_once_again new "request-2" (λ n. (n + 1, record { job_id = "job-2" })) 4 calls
      (λ n. (n + 10, record { job_id = "job-3" })) 5
