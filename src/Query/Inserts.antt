-- ===== src/Query/Inserts.antt =====
-- `addData` of source/Query.cpp, for the eleven kinds of data.
pub mod Process
pub mod System
pub mod Kernel
