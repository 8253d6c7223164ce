-- ===== src/Cwl.antt =====
-- CWL documents: the input schema that the API shows (cwl_inputs.py, app.py) and the inputs that
-- the executor fills in (process_implementations/cwl.py).
pub mod Document
pub mod Types
pub mod Entry
pub mod Inputs
pub mod Inspect
pub mod Executor
pub mod Agreement
pub mod Wiring
pub mod Prepare
pub mod Run
