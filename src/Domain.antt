-- ===== src/Domain.antt =====
-- internal/domain: the records that the components exchange, and the texts that they validate.
pub mod Text
pub mod Task
pub mod Records
pub mod Layout
pub mod Attachments
