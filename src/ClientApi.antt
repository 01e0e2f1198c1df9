-- ===== src/ClientApi.antt =====
-- pkg/clientapi: the requests to the beacon node and to the execution client.
pub mod EpochData
pub mod Requests
pub mod LastDuty
pub mod Attempts
