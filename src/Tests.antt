-- ===== src/Tests.antt =====
-- Concrete inputs at which the theorems apply.
mod Data
mod Addresses
mod Searches
mod Stores
mod Fetches
mod Transactions
mod Databases
mod Tables
mod Caches
mod Governances
mod Formats
mod Details
mod Views
mod Blocks
mod Layouts
