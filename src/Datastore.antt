-- ===== src/Datastore.antt =====
-- server/ofconfig-datastore.c: the datastores that the server offers to NETCONF clients.
pub mod Locks
pub mod Content
pub mod Editing
