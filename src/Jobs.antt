-- ===== src/Jobs.antt =====
-- Batch jobs of the API (api/openeo_argoworkflows_api/jobs.py, tasks.py, reconcile.py, psql/models.py).
pub mod Model
pub mod Services
pub mod Sync
pub mod Logs
pub mod Handlers
pub mod Queue
pub mod Submit
pub mod Poll
pub mod Reconcile
pub mod Lifecycle
