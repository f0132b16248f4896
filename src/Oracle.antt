-- ===== src/Oracle.antt =====
-- The oracle part of src/impls.rs and src/lib.rs: reports, their removal, and the searches.
pub mod Series
pub mod Invariant
pub mod Before
pub mod After
pub mod Submit
pub mod Remove
pub mod Meaning
