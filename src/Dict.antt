-- ===== src/Dict.antt =====
-- Go's maps with text keys, as association lists. The order of the list is the order in which a
-- `range` loop meets the entries, which Go leaves open: what is proved holds for every order.
mod Defs
mod Laws
unfoldable pub use Defs.{Dict, get, delete, set, has, keys, values}
pub use Laws.*
