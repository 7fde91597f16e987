-- ===== src/Node.antt =====
-- dlstorage/node: the request dispatcher, the replica handles and the storage nodes.
pub mod Dispatcher
pub mod Handles
pub mod Storage
pub mod Background
pub mod Lifecycle
pub mod Wired
pub mod Cluster
pub mod Server
pub mod Accept
