-- ===== src/Relay.antt =====
-- pkg/relay: the bids that relays delivered.
pub mod Bids
pub mod Latest
