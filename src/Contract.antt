-- ===== src/Contract.antt =====
-- packages/contract/src: the pagination of listings.
pub mod Pagination
