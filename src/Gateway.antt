-- ===== src/Gateway.antt =====
-- internal/gateway: the gateway between the clients and the machines that run the workflows.
pub mod Connection
pub mod Session
pub mod Sessions
pub mod Pool
pub mod Machines
