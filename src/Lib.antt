-- ===== src/Lib.antt =====
-- A model of the OF-CONFIG server of Open vSwitch, which takes NETCONF requests, compares the edits
-- with the configuration in the tree that it keeps as XML, and changes OVSDB accordingly.
--
-- The parts of the program and their files:
--   * server/edit-config.c works on XML trees: Xml.antt has the trees and `go2node`;
--     Edit/Whitespace.antt `clrwspace`; Edit/Operation.antt `get_operation` and
--     `check_edit_ops_hierarchy`; Edit/Compact.antt `compact_edit_operations`; Edit/Matching.antt
--     `nscmp`, `is_key`, `matching_elements` and `find_element_equiv`; Edit/Keys.antt `check_keys`.
--     Edit/Zipper.antt has places in a document, and the same search with them; Edit/Apply.antt
--     `edit_remove`, `edit_replace`, `edit_create_r`, `edit_merge` and the parts of `edit_delete` and
--     `edit_create` for documents; Edit/Live.antt, Edit/Live/Delete.antt and Edit/Live/Create.antt
--     the parts for OVSDB, which call the functions of server/ovs-data.c by the place of a node in
--     the schema; Edit/Operations.antt `get_operation_elements` and `edit_operations`, and
--     Edit/Operations/Checks.antt `get_defval` and `check_edit_ops`.
--   * server/ovs-data.c changes OVSDB in transactions: Ovs/Db.antt has the rows, Ovs/Idl.antt and
--     Ovs/Interface.antt the calls of the database library and its laws, Ovs/Txn.antt the state that
--     the functions pass on; Ovs/Ports.antt, Ovs/Queues.antt, Ovs/FlowTables.antt,
--     Ovs/Controllers.antt and Ovs/Bridges.antt the `txn_` functions of these records, each under its
--     name in the code; Ovs/QueueRefs.antt `find_queue`, `find_queue_port` and
--     `ofc_check_bridge_queue`; Ovs/Address.antt the targets of controllers, which
--     `parse_target_to_addr` reads; Ovs/AdminState.antt `txn_mod_port_admin_state`, `dev_get_flags` and
--     `dev_set_flags`; Ovs/Tunnels.antt the tunnels of ports;
--     Ovs/Adverts.antt the features that a port advertises;
--     Ovs/Certificates.antt the row of the table SSL and the files of certificates; Ovs/Arrays.antt the loops that copy an
--     array without an entry; Ovs/Config.antt and Ovs/Config/Ports.antt the printers of
--     `ofc_get_config_data`, Ovs/Config/Documents.antt the documents that
--     describe their texts, and Ovs/Config/Escaped.antt how XML writes a document;
--     Ovs/Pem.antt the printers of certificates and keys, which read them back from their files, and
--     Ovs/Pem/Rewrite.antt `parse_pem` and the functions that change a stored key.
--   * server/ofconfig-datastore.c serves the datastores: Datastore/Locks.antt `ofcds_lock` and
--     `ofcds_unlock`; Datastore/Content.antt `ofcds_getconfig`, `ofcds_deleteconfig`,
--     `ofcds_copyconfig` and `ofcds_rollback`; Datastore/Editing.antt `ofcds_editconfig`, with `txn_init`,
--     `txn_abort` and `txn_commit` of server/ovs-data.c.
--   * server/server_ops.c keeps the agents that are connected: Sessions.antt has `srv_agent_new`,
--     `srv_agent_stop`, `srv_agent_kill`, `srv_get_agent_by_ncsid` and `srv_get_agent_by_agentid` on a
--     memory of addresses; Comm/Netconf.antt has `srv_process_rpc`.
--   * the UNIX socket between an agent and the server: Comm/Wire.antt has server/comm_socket.h and
--     `recv_msg` of server/comm_socket.c; Comm/Agent.antt the calls of server/agent_comm_socket.c;
--     Comm/Server.antt the handlers of server/server_comm_socket.c, and Comm/Loop.antt its table of
--     sockets with `comm_loop`. Comm/Exchange.antt and its children put the two ends together.
--   * Base.antt has what all share: bytes and the C library's number parsing, lists, tests. Error.antt
--     has results: success, failure with the `struct nc_err` that was set, and `fault` for a run that C
--     leaves undefined (a NULL pointer is followed, an array is left or read before it is written).
--   * Tests.antt runs the theorems on concrete documents, rows and requests.
--
-- How state is modelled: a function of server/ovs-data.c takes the rows and the calls issued so far
-- and returns a result with both (`Txn`). The database library is an interface (`Idl`) with its
-- documented behaviour as laws: a column that was set can be read at once, as it was given (the
-- library may reorder a column that is a set or a map), an inserted row is new and blank, a deleted
-- row is gone; what a deletion does to references is left open. libxml2's reading and printing is the
-- interface `Libxml` (a document is read back as it was dumped if it has a root and is normal), the kernel's access to the flags of a network device the interface `Ioctl`, and
-- the running configuration as a whole the interface `Running`. libnetconf's
-- cast from default operations to operations is the parameter `as_op`.
--
-- Fuel and bounds: `matching_elements` gets as much fuel as the second tree is deep, and one more for
-- each of its two nodes; each call goes at least one level down there. The loops of `clrwspace` get
-- the length of the text. Numbers are read as by `strtol` and `sscanf` with their limits of 64 bits.
--
-- `edit_remove`, and with it the loops of `edit_operations`, run on fuel, `none` where it does not
-- suffice: for a document the number of its nodes and one more is enough for `edit_remove`, and a number above
-- this and the number of nodes at the top of the edit for `edit_operations`.
--
-- The walks through the agents run on fuel, `none` where it does not suffice: more rounds than agents are
-- enough for `srv_agent_new`.
--
-- The socket: what a side sends is a list of its calls of `send`; what arrives is cut by the kernel
-- (`Kernel`), with a number of at most four bytes in one piece. A number is read over the old value of its
-- variable, and a value that was never written makes the run undefined. Strings are shorter than 4 GiB.
-- `ofc_get_config_data` takes what the two printers of the certificates return as parameters; they are
-- modelled beside it, with a file's contents as one call.
-- libnetconf is the interface `Netconf`. `poll` and `accept` are what they return.
--
-- Applying an edit: the nodes that an XPath query has found are positions in the edit, which move with
-- the nodes before them and dangle when they are freed with another one. `edit_delete` and
-- `edit_create` work on a running datastore by one walk over the node and those below it, with an
-- `Action` for each node; the interface `Live` stands for both in Edit/Apply.antt. The functions of
-- server/ovs-data.c for certificates (see Ovs/Certificates.antt), advertised features (see Ovs/Adverts.antt), OpenFlow, created ports and `txn_del_all`, and
-- libxml2's test for a blank node, are the interface `Outside`.
--
-- `ofcds_editconfig` has the database library's transactions as the interface `Library`, and the rest of
-- the server that it asks (`ofc_get_config_data`, `of_post_ports`, parsing) as the interface `Serving`.
--
-- Not modelled: `txn_del_all`, the printers of the state, ports that are created, the agent's own loop
-- (server/agent.c), the D-Bus transport and the server's main loop, which are input and output.
-- Namespaces are known by their href only, so `clrns` has nothing to tidy. Log messages and the `verify` calls, which only prepare the commit,
-- are left out.
pub mod Base
pub mod Error
pub mod Xml
pub mod Edit
pub mod Ovs
pub mod Sessions
pub mod Comm
pub mod Datastore
pub mod Tests
