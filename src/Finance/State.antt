-- ===== src/Finance/State.antt =====
-- The rows that the finance services read and write (packages/prisma/schema.prisma), and the store
-- that holds them. Ids are numbers; a table lists its newest row first; a Decimal column is the
-- number of its hundredths. Free-form metadata and audit payloads are left out.
mod Names
mod Rows
pub use Names.*
pub use Rows.*
