-- ===== src/Pipe.antt =====
-- erisdb/pipe: what the services ask of the node.
pub mod Values
pub mod Node
pub mod Filters
pub mod Accounts
pub mod NameReg
pub mod Blockchain
pub mod Transactor
pub mod Net
pub mod Consensus
