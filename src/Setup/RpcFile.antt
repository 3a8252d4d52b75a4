-- ===== src/Setup/RpcFile.antt =====
-- LoadRpcConfig of utils/config.go, from the entries of the file as the JSON decoder leaves them.
use d8x_broker_server.Base.{List, Option, none, some}
use d8x_broker_server.Pen.{RpcConfig}

-- `rpc_exits` is the end of the program by log.Fatal.
pub data RpcLoaded : Type 0 where
  rpc_loaded : List RpcConfig → RpcLoaded
  rpc_exits : RpcLoaded

-- `none` is a file that cannot be read or decoded.
unfoldable pub load_rpc_config : Option (List RpcConfig) → RpcLoaded
load_rpc_config none = rpc_exits
load_rpc_config (some entries) = rpc_loaded entries
