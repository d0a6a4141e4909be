-- ===== src/Protocol.antt =====
-- agent_protocol: the five signed messages, the proposal log, disputes, reputation and the agents' records.
pub mod Errors
pub mod Propose
pub mod Accept
pub mod Reject
pub mod CounterPropose
pub mod Execute
pub mod Log
pub mod Dispute
pub mod Tags
pub mod Reputation
pub mod Registration
mod Tests
