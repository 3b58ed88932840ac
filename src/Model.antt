-- ===== src/Model.antt =====
-- app/models.py: codes, rows and the database that a session works on.
mod Codes
mod Rows
pub mod Replay
pub use Codes.*
pub use Rows.*
