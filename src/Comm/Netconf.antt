-- ===== src/Comm/Netconf.antt =====
-- What both ends of the socket use of libnetconf.
use of_config.Base.{ℕ, Text, codes, Option, none, some, List}
use of_config.Sessions.{Agent, Sessions}

-- What `ncds_apply_rpc2all` returns: a reply, NULL or NCDS_RPC_NOT_APPLICABLE.
pub data Applied (R : Type 0) : Type 0 where
  replied : R → Applied R
  no_reply : Applied R
  not_applicable : Applied R

pub record Netconf : Type 1 where
  pub Rpc : Type 0
  pub Reply : Type 0
  -- all that the server's data stores work on
  pub World : Type 0
  pub nc_rpc_dump : Rpc → Text
  pub nc_rpc_build : Text → Agent → Rpc
  pub nc_reply_dump : Reply → Text
  pub nc_reply_build : Text → Reply
  pub nc_reply_ok : Reply
  -- `nc_reply_error` of NC_ERR_OP_FAILED, with a message or none
  pub nc_reply_error : Option Text → Reply
  pub ncds_apply_rpc2all : Agent → Rpc → World → Applied Reply × World

module _ (n : Netconf) where
  open n use {Rpc, Reply, World, nc_reply_error, ncds_apply_rpc2all}

  abbrev pub op_failed_reply : Text → Reply
  op_failed_reply t = nc_reply_error (some t)

  abbrev pub reply_for : Applied Reply → Reply
  reply_for (replied r) = r
  reply_for no_reply = nc_reply_error none
  reply_for not_applicable =
      op_failed_reply (codes "Request is not applicable to the data managed by the server")

  -- `srv_process_rpc` of server/server_ops.c
  unfoldable pub srv_process_rpc : Agent → Rpc → World → Reply × World
  srv_process_rpc session rpc w = let (a, v) = ncds_apply_rpc2all session rpc w in (reply_for a, v)

  -- What the handlers of the server share: the agents, the data stores, and the process ids that
  -- `kill` was called with, for SIGTERM.
  pub record Shared : Type 0 where
    pub sessions : Sessions
    pub world : World
    pub signals : List ℕ
