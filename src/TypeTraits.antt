-- ===== src/TypeTraits.antt =====
-- The programs of src/type-traits.
pub mod QuickSort
