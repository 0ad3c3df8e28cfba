-- ===== src/Lib.antt =====
-- JustGiveMyDisk recovers files from a damaged NTFS volume. `scan` reads 1024-byte FILE records from
-- an image or a device and stores their names in a database; `recover` collects an indexed directory
-- tree, looks up the records of its files on the source and copies their data into a destination.
--
-- The parts, and the files that model them:
--   src/MftRecord.cpp, src/MftRecord.hpp: Mft. The buffer of a record is a list of bytes, and an
--     access past its end, undefined in C++, is a `fault` (Common/Buffer). Mft/Read is `read_le`,
--     Mft/Usa `restore_usa`, Mft/Runs `parse_data_runs` and its signed arithmetic, Mft/Names `parse`
--     and `record_number`, Mft/Attributes `data_attributes`. The modules below these hold the proofs.
--   src/Utf.cpp: Utf, the transcoder of names, with Utf/Spec as the description of both encodings.
--   src/RecoveryOutput.cpp: Output. Output/Sanitize is `sanitize_name`, Output/AtomicFile the class
--     `AtomicFile`: its constructor is `open_output`, its destructor `cleanup_partial`.
--     Output/Collisions is `CollisionTracker`, on the keys of relative paths.
--   src/Scanner.cpp: Scanner, the loop of `Scanner::run`, from the transaction's begin to its commit.
--   src/PathSafety.cpp: PathSafety, the two validations and the relations of devices, and
--     PathSafety/Opening, the life of a `Source`.
--   src/Database.cpp: Database, the columns of a stored record. SQLite documents that a column read
--     as an `int` gives the lower 32 bits of its integer, and so does `column_int`.
--   src/Recover.cpp: Recover. Recover/Tree holds `dedup_children` and `collect_tree`,
--     Recover/Locating `locate_records`, Recover/Reading holds `read_exact_at` and `read_cluster_size`,
--     Recover/Copying `write_zeros`, `copy_nonresident` and `recover_file`, Recover/Directories
--     `ensure_safe_directory`, and Recover/Run `Recover::run`, which calls all of them.
--   src/Tui.cpp: Tui. Tui/Json and Tui/Devices hold `detect_devices` and the reading of the output of
--     `lsblk`, Tui/Views `append_log`, `tree_preview` and `parent_chain`, Tui/State the variables of
--     `run_tui`, Tui/Closures its closures, Tui/Machine the handler of events, and Tui/Steps the steps
--     of the handler, of the widgets and of the scanning thread.
--
-- A numeral stands for a machine word where its range is kept by the program's own tests; where the
-- program wraps, the remainder is written out. An `std::int64_t` is the integer that it stands for. The
-- text of an error message is left out: an exception is `throw` (Output/Result).
--
-- The system calls are a parameter (Output/Posix): operations on an unknown world, and a record of
-- laws that says what POSIX documents of them. No other process acts meanwhile, a path has one
-- spelling, and the bytes of the source do not change. Output/Disk is a file system that meets them.
--
-- Loops that are no recursion on a list run on fuel, and running out of it is `stuck`, no value of
-- the program. The transcoder takes two bytes in a round, the run list two, an attribute sixteen, so
-- the length of the buffer is enough; a read or a write takes a byte or one of the interruptions that
-- the world still holds; a copy takes a byte at least. Every theorem that says what a call returns
-- also says that it is never stuck.
--
-- `Recover::run` starts behind the opening of its source. Beside the calls of the outputs it has those
-- that look at directories and make them (`Directories`), and the opening of the database; the
-- validation of paths asks the host anew in every world that a call leaves.
--
-- The query of a directory's children is a parameter of `collect_tree`, and so is the order that
-- `std::sort` leaves, of which the laws of `IsArrangement` are known. The recursion has fuel for
-- every 64-bit record number, as no number is visited twice.
--
-- The scanner's reads and the statements of its transaction are a parameter of their own
-- (`Device`): a read takes bytes off what is left of the source, and the database has rows and
-- those that are committed.
--
-- The validation of paths asks a `Host`: canonical paths, `stat`, `fstat` and sysfs, whose answers do
-- not change meanwhile. Its recursion over a device's slaves has fuel for every 64-bit device number.
--
-- The terminal interface meets the rest of the program as a `Backend`: an index that may be opened, a
-- recovery that ends in counts or an exception, and the working directory. What FTXUI's widgets write
-- into their variables is any relation. A handler of an event runs as a whole between two steps of the
-- scanning thread; the handlers read `scan_running`, `scan_done` and the log without `state_mutex`,
-- which the thread holds when it writes them. The parent chain has fuel for every 64-bit record number,
-- and the preview of a tree for its depths, 0 to 7.
--
-- Not modelled: the scanner's messages and progress (src/Scanner.cpp), the messages of a recovery
-- (src/Recover.cpp), SQLite and its queries (src/Database.cpp), the command line (src/main.cpp),
-- what the terminal interface draws, the process of `lsblk` and the text of a size (src/Tui.cpp),
-- and the branches for systems without O_CLOEXEC.
pub mod Common
pub mod Utf
pub mod Mft
pub mod Output
pub mod Database
pub mod Recover
pub mod Scanner
pub mod PathSafety
pub mod Tui
