-- ===== src/Kube/Calls.antt =====
-- The calls that the controllers make, as actions over the history of the calls made so far, with
-- rules for what an action calls (Tracing), for what it returns (Posts), and for what it
-- has come through when it returned (Inversion).
mod Bind
mod Tracing
mod Posts
mod Inversion
pub use Bind.*
unfoldable pub use Bind.{◌>>=◌}
pub use Tracing.*
pub use Posts.*
pub use Inversion.*
