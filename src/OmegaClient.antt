-- ===== src/OmegaClient.antt =====
-- connector/omega_client.py: the circuit breaker, the signed request to Omega and its retries.
-- What httpx does with a request is an argument; the clock is read in microseconds.
mod Client
mod Posts
pub mod Loop
pub mod Attempts
pub mod Breaker
pub mod Interleaving
unfoldable pub use Client.*
unfoldable pub use Posts.*
