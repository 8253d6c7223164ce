-- ===== src/Lib.antt =====
-- openEO on Argo Workflows. The repository has two programs. The API (package
-- openeo_argoworkflows/api/openeo_argoworkflows_api) keeps the batch jobs of the users in a
-- table and submits each as an Argo workflow. The executor (package
-- openeo_argoworkflows/executor/openeo_argoworkflows_executor) is the program that such a workflow
-- runs: it evaluates the process graph and publishes the results.
--
-- Base holds what the other modules share: tests and equality as Python has them, dictionaries as
-- association lists (Base.Dict), texts as lists of code points (Base.Text) and JSON (Base.Json).
--
-- Jobs is the API's side of a batch job: api/openeo_argoworkflows_api/{jobs,tasks,reconcile,workflows}.py.
--   Jobs.Model      the row `ArgoJob` of psql/models.py, the settings, the answers of Argo
--   Jobs.Services   the database, the disk and the task queue, as a record of operations with laws
--                   (`IsLawful`); Jobs.Services.Memory is an implementation that has the laws
--   Jobs.Handlers   `create_job`, `start_job`, `delete_job`, `cancel_job` of jobs.py
--   Jobs.Queue      `queue_to_submit` of tasks.py
--   Jobs.Submit     `submit_job` of tasks.py and `executor_workflow` of workflows.py
--   Jobs.Poll       `poll_job_status` and `_detect_oom` of tasks.py
--   Jobs.Reconcile  `reconcile` of reconcile.py
--   Jobs.Sync       `process_sync_job` of jobs.py; the wait is over the statuses that its looks find
--   Jobs.Logs       `logs` of jobs.py
--   Jobs.Lifecycle  the requests, tasks and reconciler runs as steps on the state of the backend, in
--                   any order: each handler runs from start to end in one step
-- A request is a function from the state to an outcome (a response, an HTTP error or an exception
-- that nothing catches) and a state. A task is a value with the copy of the job that it was
-- enqueued with, as rq pickles it.
--
-- Cwl is the treatment of CWL documents, which the two programs do in two copies of the code:
-- cwl_inputs.py of the API (Cwl.Document, Cwl.Types, Cwl.Inputs, and Cwl.Inspect for the endpoint of
-- app.py) and extra_processes/process_implementations/cwl.py of the executor (Cwl.Executor). Cwl.Prepare
-- and Cwl.Run are the executor's `run_udf` and `run_cwl` up to the manifest of the outputs, with
-- Calrissian as a function on the process. The YAML reader is a parameter, and the keys of a mapping
-- are texts.
--
-- Executor is the program of the workflow.
--   Executor.Graph    `_is_cwl_job` and the loop of `prepare_graphs` of executor.py, and
--                     `derive_sub_graph` of utils.py, which writes into the graph it is given
--   Executor.Profile  models.py, the environment that cli.py sets, `is_s3_configured` of s3.py
--   Executor.Prepare  `get_pg_bounding_box` of utils.py, `prepare_graphs` and `execute` of executor.py
--   Executor.Upload   `upload_to_s3` and `upload_stac_item_assets` of s3.py
--   Executor.Outputs  `create_cwl_stac` of stac_cwl.py, over the JSON files that it writes
--   Executor.Command  the command of cli.py, as the sequence of calls that leave a trace
--   Executor.Publish  `_publish_stac_collection` of cli.py, over the JSON files of the STAC directory
--   Executor.Grid     `StacGrid` of stac.py, over lengths that are whole numbers of a unit
--   Executor.Registry `_register_processes_from_module` of executor.py
--   Executor.Query, Executor.Raster, Executor.Load
--                     `load_collection` of extra_processes/process_implementations/io.py up to its call of
--                     `stac_load`, and crs.py; the STAC server and pyproj are parameters
--   Executor.Save     `save_result` of extra_processes/process_implementations/io.py and the path that it
--                     finds; the package that writes the files is a parameter
--
-- Auth is auth.py of the API, over texts as lists of code points: Auth.Urls is what it takes of
-- `urllib.parse`, Auth.Signed signs and checks the URLs, Auth.Login is the table of users and the
-- choice between a token and a signed URL. The hash, the base 64 coder, the local clock's zone, the settings
-- and the provider of the tokens are parameters. URLs are in ASCII, and an expiry with a sign or with
-- spaces round it, which `int` would read, counts as no number.
--
-- Results is what the API gives out of a finished job, over paths and URLs as lists of code points:
--   Results.S3          s3.py of the API
--   Results.Download    `s3_proxy_download` of app.py
--   Results.Workspace   `UserWorkspace` of jobs.py
--   Results.Collection  `get_results` of jobs.py, which signs its links with Auth.Signed
-- The files of a job are given by their content at a path. Paths have no repeated slashes and no dot
-- parts.
--
-- Files is the file store of the API, files.py: Files.Ranges reads a Range header,
-- Files.Download streams a file, given as its bytes, and Files.Store has the requests, over a disk of
-- files and directories.
--
-- Numbers are natural, and seconds and sizes are whole. The loop that reads a
-- file in chunks has the number of bytes as its fuel, which is enough since each round reads at least
-- one. The wait for a synchronous job has the number of looks as its fuel, and the theorem on it says
-- how many are enough. Every other loop runs over a list or a document, on which the recursion is
-- structural.
--
-- Not modelled: the web framework, the declarations of the OpenID provider, the SQL database behind
-- its operations, the Argo server behind its answers, the parser and evaluation of process graphs,
-- Dask, the object store, the collection of the files that Calrissian leaves, the reading, writing and
-- conversion of data cubes, timeouts, log output, and the JSON specifications of the processes.
pub mod Base
pub mod Jobs
pub mod Cwl
pub mod Executor
pub mod Auth
pub mod Results
pub mod Files
mod Tests
