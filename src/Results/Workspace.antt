-- ===== src/Results/Workspace.antt =====
-- `UserWorkspace` of jobs.py: the directories of a user and of a job. A path has no repeated slashes and
-- no dot parts.
use openeo_argoworkflows.Base.{Option, none, some, List, [], ◌∷◌, ◌++◌, ◌==◌, ◌∈◌, if◌then◌else◌}
use openeo_argoworkflows.Base.Text.{child, Text, codes, text_eq}

pub record UserWorkspace : Type 0 where
  pub root_dir : Text
  pub user_id : Text
  pub job_id : Option Text

-- The directories that are there.
abbrev pub Directories : Type 0
Directories = List Text

unfoldable pub ensure : Text → Directories → Text × Directories
ensure path dirs = (path, if path ∈ dirs then dirs else dirs ++ (path ∷ []))

-- The properties that look at the disk make the directory they name.
unfoldable pub user_directory : UserWorkspace → Directories → Text × Directories
unfolding ensure child
user_directory w dirs = ensure (child w.root_dir w.user_id) dirs

unfoldable pub files_directory : UserWorkspace → Directories → Text × Directories
unfolding user_directory ensure child
files_directory w dirs =
    let user = user_directory w dirs in ensure (child (user.0) (codes "FILES")) (user.1)

-- The truth of `job_id`: it is there and not empty.
job_of : UserWorkspace → Option Text
job_of w = elim w.job_id [ none ↦ none | some j ↦ if j == [] then none else some j ]

unfoldable pub job_directory : UserWorkspace → Option Text
unfolding job_of child
job_directory w = elim (job_of w) [
  | none ↦ none
  | some j ↦ some (child (child w.root_dir w.user_id) j)
]

unfoldable pub stac_directory : UserWorkspace → Option Text
unfolding job_directory child
stac_directory w = elim (job_directory w) [ none ↦ none | some d ↦ some (child d (codes "STAC")) ]

unfoldable pub results_directory : UserWorkspace → Option Text
unfolding job_directory child
results_directory w = elim (job_directory w) [
  | none ↦ none
  | some d ↦ some (child d (codes "RESULTS"))
]

unfoldable pub results_collection_json : UserWorkspace → Option Text
unfolding job_of stac_directory child
results_collection_json w = elim (job_of w) [
  | none ↦ none
  | some j ↦ elim (stac_directory w) [ none ↦ none | some d ↦ some (child d (j ++ codes ".json")) ]
]
