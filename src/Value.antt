-- ===== src/Value.antt =====
-- The values that the program handles: what the router's JSON decodes to, and what Python makes of
-- them (truth, equality, `dict.get`).
pub mod Floats
pub mod Defs
pub mod Dicts
pub mod Equality
pub mod Externals
unfoldable pub use Floats.*
unfoldable pub use Defs.*
unfoldable pub use Dicts.*
unfoldable pub use Equality.*
unfoldable pub use Externals.*
