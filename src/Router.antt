-- ===== src/Router.antt =====
-- The router (apps/router-server/src/llm_router): runtime state, strategies, resolution, proxy.
pub mod Load
pub mod State
pub mod Http
pub mod Score
pub mod Strategies
pub mod Config
pub mod Select
pub mod Usage
pub mod Scrape
pub mod Poller
pub mod Lora
pub mod Overlay
pub mod Proxy
pub mod Auth
pub mod Examples
