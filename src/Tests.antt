-- ===== src/Tests.antt =====
-- Runs of the model on concrete data, and the theorems applied to them.
mod Backend
mod Jobs
mod Cwl
mod Inspect
mod CwlRun
mod Auth
mod Executor
mod Files
mod Grid
mod Save
mod Registry
mod Load
mod Publish
mod Results
mod Uploads
mod Waiting
mod Outputs
mod Tiling
mod Upload
mod Reconciler
