-- ===== src/Tests/Waiting.antt =====
-- Requests that look at a job: the wait for a synchronous job, and the log.
use openeo_argoworkflows.Base.{
  ℕ, zero, suc, ◌<◌, String, Option, none, some, List, [], ◌∷◌, ◌≡◌, ◌≢◌, refl, ◌==◌, if◌then◌else◌,
  string_eq, nat_eq, arith,
}
use openeo_argoworkflows.Base.Json.{Json, text, object, field, end, lookup}
use openeo_argoworkflows.Base.Lists.{In}
use openeo_argoworkflows.Base.Decimal.{decimal, digits_onto}
use openeo_argoworkflows.Base.Split.{split}
use openeo_argoworkflows.Base.Text.{Text, codes, text_eq}
use openeo_argoworkflows.Jobs.Model.{Status, running, finished, error, Argo, found}
use openeo_argoworkflows.Jobs.Services.{World, get}
use openeo_argoworkflows.Jobs.Services.Memory.{memory, row, create_row}
use openeo_argoworkflows.Jobs.Handlers.{Fresh}
use openeo_argoworkflows.Jobs.Sync.{
  SyncProcess, SyncRequest, sync_job, wait, waiting, File, http_error, raised, no_answer,
  send_files, process_sync_job,
}
use openeo_argoworkflows.Jobs.Sync.Waiting.{Undecided, pauses_of, process_sync_job-answers}
use openeo_argoworkflows.Jobs.Logs.{
  LogEntry, entries, entries_reply, message_of, result_fields, workflow_logs, read_logs, named_logs,
  logs,
}
use openeo_argoworkflows.Jobs.Logs.Lines.{IsLine, line_at, logs-entries}
use openeo_argoworkflows.Tests.Backend.{settings, job, world, workflow, argo}

abbrev process : SyncProcess ℕ
process = record { id = some "NDVI"; graph = 7 }

abbrev body : SyncRequest ℕ
body = record { title = none; process = some process }

abbrev fresh : Fresh
fresh = record { job_id = "j9"; name = "F00"; now = 1 }

abbrev empty : World memory
empty = world [] []

-- The job runs at the first look and is finished at the second.
abbrev looks : ℕ → Option Status
looks zero = some running
looks (suc n) = some finished

running_not_finished : ◌≢◌ running finished
running_not_finished e = cc

running_not_error : ◌≢◌ running error
running_not_error e = cc

below_one : (i : ℕ) → ¬ (suc i < 1)
below_one i l = omega (arith, l)

undecided : (i : ℕ) → i < 1 → Undecided (looks i)
undecided zero l = (running, refl, running_not_finished, running_not_error)
undecided (suc i) l = absurd (below_one i l)

abbrev files : List File
files = (codes "out.tif", 1 ∷ 2 ∷ []) ∷ []

stored :
    memory.create [] (sync_job none process "u1" fresh)
    ≡ some (sync_job none process "u1" fresh ∷ [])
unfolding sync_job create_row row string_eq
stored = refl

process_sync_job-answers_example :
    ((looks 1 ≡ some finished)
      → (process_sync_job {S = memory} body "u1" fresh looks 4 files empty).0 ≡ send_files files)
    × ((looks 1 ≡ some error)
        → (process_sync_job {S = memory} body "u1" fresh looks 4 files empty).0
          ≡ http_error 500 "Failed to process. Submit as batch job to view logs.")
    × ((looks 1 ≡ none)
        → (process_sync_job {S = memory} body "u1" fresh looks 4 files empty).0 ≡ raised)
    × ((process_sync_job {S = memory} body "u1" fresh looks 1 files empty).0 ≡ no_answer)
    × (wait looks 0 0 1 ≡ waiting 1 (pauses_of looks 0 1))
process_sync_job-answers_example =
    process_sync_job-answers body process "u1" fresh files empty
      (sync_job none process "u1" fresh ∷ []) refl stored looks 1 2 undecided

abbrev said : Json
said = object (field "result" (object (field "content" (text "tile 1") end)) end)

abbrev loads : Text → Option Json
loads t = if t == codes "A" then some said else none

abbrev fetch : String → Option (ℕ × Text)
fetch name = some (200, codes "\nA\n")

abbrev there : Argo
there = argo none (found (workflow "Running" []))

abbrev w₁ : World memory
w₁ = world (job "j2" running (some "wf-1") ∷ []) []

abbrev entry : LogEntry
entry = record { id = codes "1"; message = text "tile 1" }

log_read : logs settings there loads fetch "j2" w₁ ≡ entries_reply (entry ∷ [])
unfolding logs named_logs workflow_logs read_logs entries message_of result_fields lookup decimal
    digits_onto split string_eq nat_eq text_eq row
log_read = refl

found_row : get {S = memory} w₁ "j2" ≡ some (job "j2" running (some "wf-1"))
unfolding row string_eq
found_row = refl

named : ◌≢◌ {A = String} "wf-1" ""
named e = cc

logs-entries_example :
    ((e : LogEntry) → In e (entry ∷ []) → IsLine loads 0 (split b'\n' (codes "\nA\n")) e)
    × ((i : ℕ) (line : Text) (message : Json)
        → line_at i (split b'\n' (codes "\nA\n")) ≡ some line
        → message_of loads line ≡ some (some message)
        → In (record { id = decimal i; message = message }) (entry ∷ []))
logs-entries_example =
    logs-entries settings there loads fetch w₁ "j2" "wf-1" (job "j2" running (some "wf-1"))
      (workflow "Running" []) (codes "\nA\n") (entry ∷ []) found_row refl named refl refl log_read
