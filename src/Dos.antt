-- ===== src/Dos.antt =====
-- What the library does around single calls of DOS and the BIOS: host-gcc/bios/bios-disk.c, the
-- descriptors that host-gcc/dos/getsysvars.c and host-gcc/dos-dbcs/dos-get-dbcs-lead-table.c keep
-- in protected mode, and the length of a command line in host-gcc/dos/makefcb.c.
pub mod Disk
pub mod Segments
pub mod Tables
pub mod Lines
pub mod Examples
