-- ===== src/Lib.antt =====
-- Verification of parts of libi86, the library of MS-DOS facilities for IA-16 GCC and ACK.
--
-- Base: names that all parts share: tests on numbers, lists as C arrays and strings.
-- Path: common/stdlib/makepath.c (Path/Makepath), common/stdlib/splitpath.c (Path/Splitpath), the
--   walk over %PATH% of common/dos/libi86-msdos-pathed-*.c (Path/Itr), the searches of
--   common/dir/searchpath.c and common/stdlib/searchenv.c and host-gcc/stdlib/fullpath.c
--   (Path/Search), and the character tests of common/libi86/internal/dos.h and host-gcc/dos-dbcs
--   (Path/Chars).
-- Fullpath: host-ack/stdlib/fullpath.c, which makes a path absolute with a buffer and the starts
--   of its components, and common/direct/getdcwd.c, which it calls.
-- Process: common/process/spawnve.c: the command line of a child program (Process/Cmdline), the
--   file control blocks and the environment block (Process/Env), the file and the spawner that a
--   path stands for (Process/Find, Process/Run), direct_spawn and comspec_spawn (Process/Spawn);
--   common/process/spawnvpe.c (Process/Search), which walks %PATH% with Path/Itr and calls
--   `spawnve`, and common/process/system.c (in Process/Run), which calls it with "/c";
--   common/process/spawnv.c and spawnvp.c (Process/Plain).
-- Video: the text screen of common/graph and common/conio: windows and positions (Video/Window),
--   output with its line feeds and scrolling (Video/Output) and what calls it in the style of
--   Borland (Video/Printed), colours (Video/Colour), video modes (Video/Mode, and in Video/Switch
--   host-gcc/graph/setvideomode.c with the startup code) and the cursor (Video/Cursor, with the
--   pixels of the software cursor). The state is __libi86_vid_state and __libi86_graph_state in
--   one record; the BIOS's answers are parameters.
-- Number: host-gcc/stdlib/ulltoa.c, lltoa.c, ltoa.c and ultoa.c, and the ultoa.c and ltoa.c of
--   host-ack/stdlib (Number/Ack).
-- Console: common/conio/cgets.c, common/conio/getpass.c and host-gcc/conio/cputs.c;
--   common/conio/vcscanf.c, which calls cgets (Console/Scan); single keys of getch.c, getche.c,
--   ungetch.S, kbhit.c and putch.c (Console/Keys), and the handles that they use, which
--   host-gcc/conio/libi86-con-in-fd.c and libi86-con-out-fd.c open (Console/Handles).
-- Lz4: host-gcc/kompress/lz4cpy.S and lz4len.S (in Lz4/Len), in the memory of Memory. The LZ4 block
--   format is in Lz4/Format, by itself.
-- Lz4mi86: the program examples/lz4mi86.c, which reads a frame with Endian, counts with Lz4/Len and
--   names itself with Path/Splitpath: its functions around `main` (Lz4mi86/Files), the fields of the
--   frame header (Lz4mi86/Header) and `main` (Lz4mi86/Main). The system's calls are a
--   record, and what may be relied on of them another (Lz4mi86/Streams).
-- Memory: common/string/fmemmove.c with the two copies by words in assembly that it chooses from.
-- Strings: common/string/stricmp.c and fstricmp.c.
-- Dos: host-gcc/bios/bios-disk.c (Dos/Disk), host-gcc/dos-dbcs/dos-get-dbcs-lead-table.c and
--   host-gcc/dos/getsysvars.c (Dos/Tables) with the descriptor that they keep (Dos/Segments), and
--   how much of a line host-gcc/dos/makefcb.c copies (Dos/Lines).
-- Errors: common/err/libi86-progname.c, which reads the name of the program behind its
--   environment and cuts it out with Path/Splitpath; the text of vwarn.c and vwarnx.c
--   (Errors/Messages).
-- Delay: host-ack/i86/delay.c, by the readings of the clock.
-- Endian: common/nexgen/mzendian.h.
--
-- Every operation is named as in C. A char is a number from 0 to 255, a string a list of them
-- without the NUL, a null pointer `none`, a char array that is filled the list of what is in it;
-- an errno value is an error result. What DOS and the BIOS do is an argument of the definitions:
-- whether a file is there, what running a program gives, the table of lead bytes, what `write`
-- takes, which keys come. Far pointers are segments and offsets of real mode, with the A20 line
-- enabled. Loops over a string or over keys are structural. The walk over %PATH% is on fuel, the
-- number of directories that the text can hold; so are the loop over the components of a path in
-- Fullpath, one for each byte, the loops over the digits of a number, 64 of them, and the passes of
-- `_lz4len`, 2 ^ 14. All are shown to be enough, and a loop without fuel never gives what
-- the function returns. `_lz4cpy` need not end on a block that is not well formed; on one that
-- is, a pass for each match and one more are shown to be enough. A loop of Delay that reads the
-- clock is on fuel too: how many readings it takes depends on the clock, and is bounded for a clock
-- with small steps.
--
-- Not modelled: most of the assembly, among it DPMI; the wrappers of single DOS and BIOS
-- calls; the ACK versions of console output and of video modes; what printf and scanf do, which
-- is the C library's; graphics but for colours and the software cursor; what memory is given back
-- after a program has run.
mod Base
pub mod Path
pub mod Process
pub mod Video
pub mod Number
pub mod Console
pub mod Endian
pub mod Fullpath
pub mod Lz4
pub mod Lz4mi86
pub mod Memory
pub mod Strings
pub mod Dos
pub mod Errors
pub mod Delay
