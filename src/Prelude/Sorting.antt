-- ===== src/Prelude/Sorting.antt =====
-- `sorted` on texts, and the order of code points that it uses.
mod Order
mod Sort
mod Ascending
pub use Order.*
unfoldable pub use Sort.*
pub use Ascending.*
