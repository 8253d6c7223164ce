-- ===== src/Jobs/Handlers.antt =====
-- The requests on jobs: `create_job`, `start_job`, `delete_job` and `cancel_job` of jobs.py.
pub mod Start
pub mod Cancel
pub mod Create
use openeo_argoworkflows.Base.{
  ℕ, String, ◌<>◌, Bool, true, false, not, ◌&&◌, ◌||◌, Option, none, some, List, [], ◌∷◌, ◌==◌,
  if◌then◌else◌, string_eq,
}
use openeo_argoworkflows.Base.Dict.{Dict}
use openeo_argoworkflows.Jobs.Model.{
  Job, Status, created, queued, running, canceled, status_eq, truthy, Answer, found, not_found,
  failed, Argo, stop, Outcome, response, http_error, crash, Settings,
}
use openeo_argoworkflows.Jobs.Services.{Services, World, emit, modify, get, job_workspace}
use openeo_argoworkflows.Jobs.Queue.{queue_to_submit}

-- `body.process`: the graph and the name may be missing.
pub record ProcessRequest (Graph : Type 0) : Type 0 where
  pub id : Option String
  pub process_graph : Option Graph

-- `JobsRequest`
pub record JobsRequest (Graph : Type 0) : Type 0 where
  pub title : Option String
  pub description : Option String
  pub process : Option (ProcessRequest Graph)

-- The graph of a request that has one, empty graphs apart.
unfoldable pub requested_graph : {G : Type 0} → (G → Bool) → JobsRequest G → Option G
requested_graph is_empty body = elim body.process [
  | none ↦ none
  | some p ↦ elim p.process_graph [ none ↦ none | some g ↦ if is_empty g then none else some g ]
]

-- The name of the process: the given one, or a fresh one.
unfoldable pub process_name : {G : Type 0} → JobsRequest G → String → String
process_name body fresh = elim body.process [
  | none ↦ fresh
  | some p ↦ elim p.id [ none ↦ fresh | some n ↦ if n == "" then fresh else n ]
]

-- The four fresh values of a request: the id of the job, the name of the process, the time.
pub record Fresh : Type 0 where
  pub job_id : String
  pub name : String
  pub now : ℕ

-- A stop request to Argo, and whether Argo knows the workflow.
abbrev stopped : Argo → Settings → Option String → Answer
stopped argo s name = argo.stop_workflow name s.argo_workflows_namespace

unfoldable pub new_job : {G : Type 0} → JobsRequest G → G → String → Fresh → Job G
unfolding process_name
new_job body graph user_id f = record {
  job_id = f.job_id;
  user_id = user_id;
  process = graph;
  process_name = process_name body f.name;
  status = created;
  title = body.title;
  description = body.description;
  created_at = f.now;
  synchronous = false;
  workflowname = none;
  message = none;
}

module _ {S : Services} where
  unfoldable pub create_job :
      Settings → JobsRequest S.Graph → String → Fresh → World S → Outcome × World S
  unfolding requested_graph new_job
  create_job s body user_id f w = elim (requested_graph S.is_empty body) [
    | none ↦ (http_error 400 "ProcessGraphMissing", w)
    | some graph ↦ elim (S.create w.db (new_job body graph user_id f)) [
      | none ↦ (http_error 500 "Internal", w)
      | some db ↦ (
        response 201 (
            ("Location", s.api_dns <> s.openeo_prefix <> "/jobs/" <> f.job_id)
            ∷ ("OpenEO-Identifier", f.job_id)
            ∷ []),
        record w { db = db },
      )
    ]
  ]

  -- The rest of `start_job`, when the workspace has been made.
  enqueue_start : Settings → Argo → Job S.Graph → World S → Outcome × World S
  enqueue_start s argo job w =
      let (written, db) = S.modify w.db (record job { status = queued }) in
      let (raised_not, w') =
        queue_to_submit s argo (record job { status = queued }) (record w { db = db }) in
      if not raised_not
      then (crash "queue_to_submit", w')
      else if written
      then (response 202 [], w')
      else (http_error 500 "The workflow server could not run the job at this time.", w')

  unfoldable pub start_job : Settings → Argo → String → String → World S → Outcome × World S
  unfolding enqueue_start
  start_job s argo job_id user_id w = elim (get w job_id) [
    | none ↦ (http_error 404 "Job was not found for this ID", w)
    | some job ↦
        if job.status == queued || job.status == running
        then (http_error 400 "Job is already in queue or running, and cannot be started again.", w)
        else elim (S.mkdir w.disk (job_workspace s user_id job.job_id)) [
          | none ↦ (http_error 500 "Could not create workspace for the current job.", w)
          | some disk ↦ enqueue_start s argo job (record w { disk = disk })
        ]
  ]

  -- `workflows_service.stop_workflow`, with the call on record.
  stop_workflow : Settings → Option String → World S → World S
  stop_workflow s name w = emit (stop name s.argo_workflows_namespace) w

  -- `if job_workspace.exists(): shutil.rmtree(job_workspace)`
  remove_workspace : String → World S → World S
  remove_workspace p w = if S.exists w.disk p then record w { disk = S.rmtree w.disk p } else w

  -- A job that is not there has no `status`. Any failure of the stop request is passed over.
  unfoldable pub delete_job : Settings → String → String → World S → Outcome × World S
  unfolding stop_workflow remove_workspace
  delete_job s job_id user_id w = elim (get w job_id) [
    | none ↦ (crash "AttributeError", w)
    | some job ↦
        let w1 =
          if job.status == queued || job.status == running
          then stop_workflow s job.workflowname w
          else w in
        let w2 = remove_workspace (job_workspace s user_id job.job_id) w1 in
        (response 204 [], record w2 { db = S.delete w2.db job_id })
  ]

  cancel_row : Job S.Graph → World S → Outcome × World S
  cancel_row job w = (response 204 [], modify (record job { status = canceled }) w)

  -- Only `NotFound` is caught here.
  unfoldable pub cancel_job : Settings → Argo → String → World S → Outcome × World S
  unfolding stop_workflow cancel_row
  cancel_job s argo job_id w = elim (get w job_id) [
    | none ↦ (crash "AttributeError", w)
    | some job ↦
        if not (job.status == queued) && not (job.status == running)
        then (
          http_error 400 "The job isn't running or queued and therefore could not be canceled",
          w,
        )
        else if job.status == running && truthy job.workflowname
        then elim (stopped argo s job.workflowname) [
          | found _ ↦ cancel_row job (stop_workflow s job.workflowname w)
          | not_found ↦ cancel_row job (stop_workflow s job.workflowname w)
          | failed ↦ (crash "stop_workflow", stop_workflow s job.workflowname w)
        ]
        else cancel_row job w
  ]
