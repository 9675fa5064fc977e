-- ===== src/Table.antt =====
-- The builders of the parts of a table file (src/table/, src/db/offset_info.h).
pub mod DataBlock
pub mod IndexBlock
pub mod FilterBlock
pub mod Builder
