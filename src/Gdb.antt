-- ===== src/Gdb.antt =====
-- twib/tool/GdbConnection.cpp: the transport of the GDB remote serial protocol.
pub mod Hex
pub mod Connection
