-- ===== src/Nodepool.antt =====
-- provider/nodepool: a pool of endpoints with circuit breakers, rate limits and two dispatch
-- strategies.
pub mod Types
pub mod Options
pub mod Node
pub mod World
pub mod Strategy
pub mod Pool
pub mod HttpTransport
mod Examples
