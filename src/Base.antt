-- ===== src/Base.antt =====
-- What the other modules share: the libraries' names, and those of the children.
mod Names
mod Tests
mod Int
mod Lists
mod Bytes
mod Assoc
mod Loop
pub use Names.*
pub use Tests.*
unfoldable pub use Int.*
pub use Lists.*
unfoldable pub use Bytes.*
unfoldable pub use Assoc.*
unfoldable pub use Loop.*
