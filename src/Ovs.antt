-- ===== src/Ovs.antt =====
-- server/ovs-data.c: the transactions that change the configuration in OVSDB.
pub mod Db
pub mod Idl
pub mod Interface
pub mod Txn
pub mod Rows
pub mod Arrays
pub mod Ports
pub mod QueueRefs
pub mod Queues
pub mod FlowTables
pub mod Address
pub mod Controllers
pub mod Bridges
pub mod AdminState
pub mod Tunnels
pub mod Adverts
pub mod Certificates
pub mod Config
pub mod Pem
