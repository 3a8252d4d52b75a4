-- ===== src/Setup.antt =====
-- What happens before the services run: the key file, the chain and RPC configurations, the connection to a
-- chain node.
pub mod KeyGen
pub mod KeyFile
pub mod ChainFile
pub mod RpcFile
pub mod Dial
