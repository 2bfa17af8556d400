-- ===== src/Database.antt =====
-- The database: PostgreSQL through the Prisma client (packages/database). The client is not part
-- of the repository, so its operations are a parameter, with their documented behaviour as laws.
pub mod Client
pub mod ContentRows
pub mod IdentityRows
pub mod IntegrationRows
pub mod Store
pub mod Laws
pub mod Counting
pub mod Reads
