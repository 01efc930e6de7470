-- ===== src/Oracle.antt =====
-- pallets/oracle: requests for data, sent to a rollup's queue, and the responses that come back.
pub mod State
pub mod Calls
pub mod Requests
pub mod Responses
pub mod Collisions
pub mod RoundTrip
