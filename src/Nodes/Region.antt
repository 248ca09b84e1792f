-- ===== src/Nodes/Region.antt =====
-- server/web/features/nodes/lib/region.ts: the region of a node by its name, and the grouping.
pub mod Labels
pub mod Keywords
pub mod Flags
pub mod Detection
pub mod Grouping
