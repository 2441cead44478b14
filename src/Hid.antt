-- ===== src/Hid.antt =====
-- src/libmccr/mccr-hid.c: the parser of HID report descriptors and what it leaves behind.
pub mod Usages
pub mod Context
pub mod Parser
pub mod Reports
pub mod Tests
