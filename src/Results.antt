-- ===== src/Results.antt =====
-- The results of a finished job, as the API gives them out: s3.py, the proxy of app.py and
-- `get_results` of jobs.py.
pub mod S3
pub mod Download
pub mod Workspace
pub mod Collection
