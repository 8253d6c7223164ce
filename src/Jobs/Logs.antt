-- ===== src/Jobs/Logs.antt =====
-- `logs` of jobs.py: the lines that the workflow of a job has printed.
pub mod Lines
use openeo_argoworkflows.Base.{
  ℕ, suc, String, Bool, true, false, Option, none, some, List, [], ◌∷◌, ◌++◌, ◌==◌, if◌then◌else◌,
  string_eq, nat_eq, ◌>>=◌,
}
use openeo_argoworkflows.Base.Json.{Json, object, Fields, end, lookup}
use openeo_argoworkflows.Base.Decimal.{decimal}
use openeo_argoworkflows.Base.Split.{split}
use openeo_argoworkflows.Base.Text.{Text, codes, text_eq}
use openeo_argoworkflows.Jobs.Model.{
  Job, truthy, Workflow, Answer, found, not_found, failed, Argo, Settings,
}
use openeo_argoworkflows.Jobs.Services.{Services, World, get}

-- An entry of the answer. Its level is always `info`.
pub record LogEntry : Type 0 where
  pub id : Text
  pub message : Json

-- What a parsed line holds under `result`, with an empty object for none; a line or a result that
-- is no object raises.
unfoldable pub result_fields : Json → Option Fields
unfolding lookup
result_fields (object d) = elim (lookup "result" d) [
  | none ↦ some end
  | some (object r) ↦ some r
  | some _ ↦ none
]
result_fields _ = none

-- `json.loads`, with none for an exception. A line without a message is `some none`.
module _ (loads : Text → Option Json) where
  unfoldable pub message_of : Text → Option (Option Json)
  unfolding result_fields lookup
  message_of [] = some none
  message_of (c ∷ line) = do
    parsed ← loads (c ∷ line)
    r ← result_fields parsed
    some (lookup "content" r)

  add_entry : ℕ → Option Json → List LogEntry → List LogEntry
  add_entry idx none rest = rest
  add_entry idx (some content) rest = record { id = decimal idx; message = content } ∷ rest

  -- The lines from the idx-th on.
  unfoldable pub entries : ℕ → List Text → Option (List LogEntry)
  unfolding message_of add_entry decimal
  entries idx [] = some []
  entries idx (line ∷ lines) = do
    m ← message_of line
    rest ← entries (suc idx) lines
    some (add_entry idx m rest)

pub data LogReply : Type 0 where
  entries_reply : List LogEntry → LogReply
  http_error : ℕ → String → LogReply
  raised : LogReply

-- A status other than 200 gives no entries.
unfoldable pub read_logs : (Text → Option Json) → Option (ℕ × Text) → LogReply
unfolding split entries
read_logs loads none = raised
read_logs loads (some (status, content)) =
    if status == 200
    then elim (entries loads 0 (split b'\n' content)) [ none ↦ raised | some es ↦ entries_reply es ]
    else entries_reply []

-- `fetch` asks Argo for the log of a workflow: the status of the response and its text, or none
-- if the call raises.
unfoldable pub workflow_logs :
    (Text → Option Json) → (String → Option (ℕ × Text)) → String → Answer → LogReply
unfolding read_logs
workflow_logs loads fetch name not_found =
    http_error 404 "Job run not longer available for this Job."
workflow_logs loads fetch name failed = raised
workflow_logs loads fetch name (found workflow) = read_logs loads (fetch name)

unfoldable pub named_logs :
    Settings → Argo → (Text → Option Json) → (String → Option (ℕ × Text)) → Option String → LogReply
unfolding workflow_logs
named_logs s argo loads fetch none = http_error 404 "No Job run found for this Job."
named_logs s argo loads fetch (some name) =
    if name == ""
    then http_error 404 "No Job run found for this Job."
    else workflow_logs loads fetch name (argo.get_workflow name s.argo_workflows_namespace)

module _ {S : Services} (s : Settings) (argo : Argo) (loads : Text → Option Json)
    (fetch : String → Option (ℕ × Text)) where
  unfoldable pub logs : String → World S → LogReply
  unfolding named_logs
  logs job_id w = elim (get w job_id) [
    | none ↦ http_error 404 "Job not found."
    | some job ↦ named_logs s argo loads fetch job.workflowname
  ]
