-- ===== src/Types.antt =====
-- The data of the pallet: src/types.rs, and the errors and events of src/lib.rs.
mod Errors
mod Records
mod Events
mod Origins
pub mod Convert
pub use Errors.*
pub use Records.*
pub use Events.*
pub use Origins.*
