-- ===== src/Jobs/Sync.antt =====
-- `process_sync_job` of jobs.py: a job whose request waits for the result.
pub mod Waiting
use openeo_argoworkflows.Base.{
  ℕ, zero, suc, ◌+◌, String, ◌<>◌, Bool, true, false, Option, none, some, List, [], ◌∷◌, ◌++◌, ◌==◌,
  if◌then◌else◌, string_eq,
}
use openeo_argoworkflows.Base.Dict
use openeo_argoworkflows.Base.Dict.{Dict}
use openeo_argoworkflows.Base.Text.{Text, codes, text_eq, extension}
use openeo_argoworkflows.Jobs.Model.{
  Job, Status, queued, running, finished, error, status_eq, enqueue, submit_job_task,
}
use openeo_argoworkflows.Jobs.Services.{Services, World, emit}
use openeo_argoworkflows.Jobs.Handlers.{Fresh}

-- The process of a request: its name, which may be missing, and what the column of the job keeps
-- of it.
pub record SyncProcess (Graph : Type 0) : Type 0 where
  pub id : Option String
  pub graph : Graph

pub record SyncRequest (Graph : Type 0) : Type 0 where
  pub title : Option String
  pub process : Option (SyncProcess Graph)

unfoldable pub sync_name : Option String → String → String
sync_name id fresh = elim id [ none ↦ fresh | some n ↦ if n == "" then fresh else n ]

unfoldable pub sync_job : {G : Type 0} → Option String → SyncProcess G → String → Fresh → Job G
unfolding sync_name
sync_job title p user_id f = record {
  job_id = f.job_id;
  user_id = user_id;
  process = p.graph;
  process_name = sync_name p.id f.name;
  status = queued;
  title = title;
  description = some ("Synchronous execution of process graph " <> sync_name p.id f.name <> ".");
  created_at = f.now;
  synchronous = true;
  workflowname = none;
  message = none;
}

-- How the loop stands: the looks at the row so far, and the pauses of fifteen seconds.
pub data Wait : Type 0 where
  done : ℕ → ℕ → Wait
  job_failed : ℕ → ℕ → Wait
  row_gone : ℕ → ℕ → Wait
  waiting : ℕ → ℕ → Wait

-- Only a job that is running makes the loop pause.
unfoldable pub pause : Status → ℕ
pause status = if status == running then 1 else 0

-- The status that each look finds, with none for a row that is gone. The fuel bounds the looks.
unfoldable pub wait : (ℕ → Option Status) → ℕ → ℕ → ℕ → Wait
unfolding pause
wait looks n pauses zero = waiting n pauses
wait looks n pauses (suc fuel) = elim (looks n) [
  | none ↦ row_gone (suc n) pauses
  | some status ↦
      let rest = wait looks (suc n) (pauses + pause status) fuel in
      if status == finished
      then done (suc n) pauses
      else if status == error
      then job_failed (suc n) pauses
      else rest
]

-- A file of the results: its name and its bytes.
abbrev pub File : Type 0
File = Text × List ℕ

abbrev mime_types : Dict Text String
mime_types =
    (codes ".tif", "image/tiff; application=geotiff; profile=cloud-optimized")
    ∷ (codes ".nc", "application/netcdf")
    ∷ (codes ".json", "application/json")
    ∷ []

-- The answer: a file with its name and type, an archive of some files, an error, an exception, or
-- none yet.
pub data SyncReply : Type 0 where
  one_file : File → String → SyncReply
  archive : List File → SyncReply
  http_error : ℕ → String → SyncReply
  raised : SyncReply
  no_answer : SyncReply

single : File → SyncReply
unfolding Dict.get extension
single f = elim (Dict.get (extension (f.0)) mime_types) [ none ↦ raised | some t ↦ one_file f t ]

unfoldable pub send_files : List File → SyncReply
unfolding single
send_files [] = http_error 500 "No files to return for request."
send_files (f ∷ []) = single f
send_files (f ∷ g ∷ fs) = archive (f ∷ g ∷ fs)

unfoldable pub after_wait : Wait → List File → SyncReply
unfolding send_files
after_wait (done n p) files = send_files files
after_wait (job_failed n p) files =
    http_error 500 "Failed to process. Submit as batch job to view logs."
after_wait (row_gone n p) files = raised
after_wait (waiting n p) files = no_answer

-- The world is that after the task has been put on the queue.
module _ {S : Services} where
  unfoldable pub process_sync_job :
      SyncRequest S.Graph
      → String
      → Fresh
      → (ℕ → Option Status)
      → ℕ
      → List File
      → World S
      → SyncReply × World S
  unfolding sync_job wait after_wait
  process_sync_job body user_id f looks fuel files w = elim body.process [
    | none ↦ (raised, w)
    | some p ↦ elim (S.create w.db (sync_job body.title p user_id f)) [
      | none ↦ (raised, w)
      | some db ↦ (
        after_wait (wait looks 0 0 fuel) files,
        emit (enqueue (submit_job_task (sync_job body.title p user_id f))) (record w { db = db }),
      )
    ]
  ]
