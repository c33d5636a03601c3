-- ===== src/App.antt =====
-- connector/app.py: the two scan endpoints, what they make of Omega's reply or failure, and the
-- handlers that turn an exception into a reply.
mod Normalize
mod Endpoint
mod Handlers
mod Wire
unfoldable pub use Normalize.*
unfoldable pub use Endpoint.*
unfoldable pub use Handlers.*
unfoldable pub use Wire.*
pub mod Verdicts
pub mod Records
pub mod Admission
pub mod Guarantees
pub mod MissingId
pub mod Statuses
pub mod Concurrent
