-- ===== src/Jobs/Lifecycle/Bound.antt =====
-- An invariant of the backend: a job that runs has a workflow.
use openeo_argoworkflows.Base.{String, true, some, ◌≡◌, string_eq, arith}
use openeo_argoworkflows.Jobs.Model.{Job, running, status_eq, truthy, Argo, Settings}
use openeo_argoworkflows.Jobs.Services.{Services, IsLawful, World, get}
use openeo_argoworkflows.Jobs.Submit.{Submission}
use openeo_argoworkflows.Jobs.Reconcile.{reconcile}
use openeo_argoworkflows.Jobs.Reconcile.Agreement.{reconcile-IsLive}
use openeo_argoworkflows.Jobs.Lifecycle.{
  Step, create, start, cancel, delete, work, sync, tidy, Reach, here, next,
}
use openeo_argoworkflows.Jobs.Lifecycle.Changes.{
  AllBound, Change-AllBound, NamesWorkflows, create_job-Change, start_job-Change, cancel_job-Change,
  delete_job-Change, perform-Change, process_sync_job-Change,
}

reconcile-AllBound :
    {S : Services} (L : IsLawful S) (ns : String) (argo : Argo) (w : World S)
    → AllBound (reconcile ns argo w)
reconcile-AllBound L ns argo w i j e runs =
    let live = reconcile-IsLive L ns argo w i j e runs in ground (arith, live.tied, live.named)

module _ {S : Services} (L : IsLawful S) (sub : Submission S.Graph) (s : Settings)
    (named : NamesWorkflows sub) where
  Step-AllBound : {w w' : World S} → Step S sub s w w' → AllBound w → AllBound w'
  Step-AllBound {w} (create body u f) h = Change-AllBound L w _ (create_job-Change s body u f w) h
  Step-AllBound {w} (start argo i u) h = Change-AllBound L w _ (start_job-Change s argo i u w) h
  Step-AllBound {w} (cancel argo i) h = Change-AllBound L w _ (cancel_job-Change s argo i w) h
  Step-AllBound {w} (delete i u) h = Change-AllBound L w _ (delete_job-Change s i u w) h
  Step-AllBound {w} (work argo t) h = Change-AllBound L w _ (perform-Change sub s named argo t w) h
  Step-AllBound {w} (sync body u f looks fuel files) h =
      Change-AllBound L w _ (process_sync_job-Change body u f looks fuel files w) h
  Step-AllBound {w} (tidy argo) h = reconcile-AllBound L _ argo w

  Reach-AllBound : {w w' : World S} → Reach S sub s w w' → AllBound w → AllBound w'
  Reach-AllBound here h = h
  Reach-AllBound (next r st) h = Step-AllBound st (Reach-AllBound r h)

  -- In every state that the backend reaches by creations, starts, cancellations and deletions of jobs,
  -- synchronous requests, tasks of the workers and runs of the reconciler, in any order, a job that the
  -- table calls running has the name of its workflow, if that held at first and Argo names what it
  -- creates.
  pub running_job_is_bound :
      {w w' : World S} (i : String) (j : Job S.Graph)
      → AllBound w
      → Reach S sub s w w'
      → get w' i ≡ some j
      → j.status ≡ running
      → truthy j.workflowname ≡ true
  running_job_is_bound i j h r row runs = Reach-AllBound r h i j row runs
