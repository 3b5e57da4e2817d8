-- ===== src/Base.antt =====
-- Names that the components share: the libraries', passed on, with the tests, lists and keys below.
pub mod Tests
pub mod Lists
pub mod Keys
pub mod Map
pub mod ByteSlices
pub use Tests.*
pub use Lists.*
pub use Keys.*
pub use ByteSlices.*
