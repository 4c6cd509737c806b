-- ===== src/Vda.antt =====
-- The VDA 5050 objects of src/common/vda-5050-types.ts that the controllers work with.
mod Value
mod Orders
mod States
unfoldable pub use Value.*
unfoldable pub use Orders.*
unfoldable pub use States.*
