-- ===== src/Bond.antt =====
-- Bond pools and validator stakes: src/staking.
pub mod Defs
pub mod Memory
pub mod Keys
pub mod Cases
pub mod Sums
pub mod Amounts
pub mod Backing
pub mod Service
pub mod Solvency
pub mod Rows
pub mod Debits
pub mod Postgres
pub mod Attempts
pub mod Optimistic
pub mod Examples
