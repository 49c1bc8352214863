-- ===== src/Matrix.antt =====
-- The sparse matrices in compressed row storage: src/matrix/sparse_matrix.cpp, and the version of
-- src/parallel-sparse-matrix/sparse_matrix.h that counts from 0.
pub mod Result
pub mod Scalar
pub mod Storage
pub mod Rows
pub mod Sparse
pub mod Parallel
