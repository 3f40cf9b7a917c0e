-- ===== src/Tests.antt =====
-- Runs of the theorems on concrete documents, rows and requests.
mod Sample
mod Idl
mod Edit
mod Rows
mod Ovs
mod Stored
mod Switch
mod Tunnel
mod Datastore
mod Applied
mod Editing
mod Pem
mod Ethernet
mod Agents
mod Wire
mod Config
