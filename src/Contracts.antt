-- ===== src/Contracts.antt =====
-- The data contracts, balancecheck/contracts/models.py: every record of the system, in four parts.
mod Records
mod Claims
mod Events
mod JsonValues
pub use Records.*
pub use Claims.*
pub use Events.*
pub use JsonValues.*
