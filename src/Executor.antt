-- ===== src/Executor.antt =====
-- The executor: the program that a workflow runs, in the package `openeo_argoworkflows_executor`.
pub mod Graph
pub mod Profile
pub mod Command
pub mod Grid
pub mod Prepare
pub mod Upload
pub mod Outputs
pub mod Save
pub mod Publish
pub mod Query
pub mod Registry
pub mod Raster
pub mod Load
