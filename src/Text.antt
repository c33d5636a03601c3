-- ===== src/Text.antt =====
-- Python's `str`, as the connector uses it: a text is the list of its code points (Unicode scalar
-- values: headers are decoded from Latin-1, and no payload field holds a lone surrogate).
mod Strip
mod Decimal
mod RoundTrip
mod Defs
unfoldable pub use Defs.*
unfoldable pub use Strip.*
unfoldable pub use Decimal.*
unfoldable pub use RoundTrip.*
