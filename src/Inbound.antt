-- ===== src/Inbound.antt =====
-- inbound.c: the inbound directory, where received files are kept until they are complete.
pub mod Name
pub mod Done
pub mod Rename
pub mod Partial
pub mod Open
