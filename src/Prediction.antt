-- ===== src/Prediction.antt =====
-- The governance of capacity predictions: backend/services/capacityPredictionGovernanceService.py and
-- backend/crud/capacityPredictionCrud.py.
pub mod Db
pub mod Gate
pub mod Governance
pub mod Curve
pub mod Resource
pub mod View
pub mod Risk
mod Examples
