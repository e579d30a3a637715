-- ===== src/Config.antt =====
-- The configuration file: src/config/config.cpp and src/config/config.hpp.
pub mod Sections
pub mod Routes
pub mod Load
pub mod Checked
pub mod Sound
pub mod Safe
pub mod Serving
pub mod Tests
pub use Sections.*
pub use Routes.*
pub use Load.*
