-- ===== src/Contents/Domain.antt =====
-- content-domain.ts: the editorial life cycle, and the normal forms of slugs and labels.
pub mod Status
pub mod Editorial
pub mod Html
pub mod Labels
pub mod Slug
pub mod Words
pub mod Normal
pub mod Order
pub mod Tests
