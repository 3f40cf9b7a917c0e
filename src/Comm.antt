-- ===== src/Comm.antt =====
-- The UNIX socket between an agent and the server: server/comm_socket.c, server/agent_comm_socket.c and
-- server/server_comm_socket.c.
pub mod Wire
pub mod Netconf
pub mod Agent
pub mod Server
pub mod Loop
pub mod Exchange
