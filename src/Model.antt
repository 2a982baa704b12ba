-- ===== src/Model.antt =====
-- harness/model_gateway, harness/scheduler/budget.py and harness/runtime/model_selection.py: the calls
-- of models and the choice of the model.
pub mod Protocol
pub mod Permits
pub mod Access
pub mod Preferences
pub mod Selection
