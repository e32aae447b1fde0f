-- ===== src/Transaction.antt =====
-- web-app/src/utils/transaction.ts: message names, the texts of messages, the forms of a transaction's
-- hash and the translation of EVM event logs; and the kind of a transaction.
pub mod Names
pub mod Cts
pub mod Packets
pub mod Hashes
pub mod Detail
pub mod Logs
pub mod Data
pub mod Page
