-- ===== src/Lib.antt =====
-- mrimgx_consolidate merges a range of files of a Macrium Reflect X backup set into one file. This
-- library models how a file is read, how a set of files is resolved to one entry per logical
-- block, how a merge is planned, how its output is written, and how it is put in place.
--
-- The parts, and the files that model them (paths from the repository's root):
--
--   Block    src/block.rs   metadata block headers, the footer, the walk of a block list
--   Index    src/index.rs   the block index: elements, delta elements, the `$INDEX` payload
--   Json     src/json.rs    the header fields of the `$JSON` document
--   Reader   src/reader.rs  one parsed file: its root list, disks and partitions
--   Set      src/set.rs     the files of one set: discovery, owners, completeness, `flatten`
--   Plan     src/plan.rs    the merge plan: Plan/Rules holds the rules that refuse a merge,
--                           Plan/Build the plan itself, the other files what is shown of it
--   Write    src/write.rs   the copy loop and the data region; Write/Metadata the metadata region
--                           and, in Write/Metadata/Readback, how it reads again; Write/Document
--                           the patched document; Write/Output the finished file and its check
--   Commit   src/commit.rs  the limits of the destination, and the commit of a temporary output:
--                           Commit/Rename the attempts to rename, Commit/Atomic the whole
--   Crypto   src/crypto.rs  key, initialization vector and decryption of a block
--   Verify   src/verify.rs  the test of every stored block of a file
--   Merge                   plan, writer and reader together: no code of its own
--   Base                    lists, results, sets, bytes and integers that the parts share
--   Tests                   concrete files and sets, and each theorem at one of them
--
-- How they interact: Reader opens a file with Block, Json and Index; Set opens the files of a
-- directory with Reader and resolves them; Plan decides over the resolved set what becomes of each
-- block; Write carries the plan out on the bytes of the open files, and opens and checks what it wrote
-- with Reader; Commit puts the file in place; Verify undoes and hashes the blocks of a finished file.
--
-- State and operations. A file is the list of its bytes, and a read is a slice that fails when the
-- file is too short. Each struct is a record with the fields of the source, each enum a data type.
-- A function keeps the name it has in the source; a constructor `parse` of two types in one file is
-- `parse_header`, `parse_element` and the like. A function that returns `anyhow::Result` returns
-- `Result` with one constructor of `Error` for each refusal; the texts of messages are left out. What
-- a function changes through `&mut` is passed on: the output, offset and duplicate map of
-- `copy_actions` are the record `CopyState`. A `BTreeSet<u16>` is an ascending list, a `HashMap` an
-- association list.
--
-- Integers are natural numbers, with the width of the Rust type as a bound where it matters
-- (`IsHeader`, `IsElement`, `IsDelta`); a file position is a 64-bit integer in two's complement.
--
-- Fuel. The loop of `walk_list` has 64 rounds, the limit at which the source itself refuses, and
-- the loops of `write_zeros` and `copy_range` as many rounds as there are bytes to write. The attempts to rename are the
-- four of the source.
--
-- Parameters. serde_json is the interface `Json.Documents`, and for changes `Json.Editing`, whose
-- laws say that an insertion replaces the value of its key and no other and that a view gives
-- back what a value was made from. That a printed document is read back is no law: where it
-- matters, it is a condition on the one document that is printed. MD5 and the zstd decoder are
-- functions on bytes; the directory is a list of entries. The calls that a commit makes are the
-- interface `Commit.Os`, whose laws say that a rename is atomic whatever it reports, that it
-- needs the temporary file, that a name that exists holds a file (`Path::exists` may answer false
-- for one whose metadata cannot be read), and that the other calls leave the destination alone.
-- The writer of `write_zeros` is any function that takes bytes or fails; elsewhere the output is
-- a buffer, which takes every write.
--
-- Not modelled: opening the source files by their paths (src/write.rs); the lock, the leftovers,
-- the kind of a mount and the creation of the temporary file (src/commit.rs); `imageid_binary`
-- (src/json.rs) and the statistics of `Flattened` (src/set.rs); reports and the command line
-- (src/scan.rs, src/cli.rs, src/main.rs); the settings and the password of an encrypted set
-- (`Storage::of` in src/verify.rs, `check_password` in src/crypto.rs). The hashes and ciphers are
-- third-party code: the interface `Crypto.Ciphers`, whose law says that AES permutes the blocks.
pub mod Base
pub mod Block
pub mod Index
pub mod Json
pub mod Reader
pub mod Set
pub mod Plan
pub mod Write
pub mod Crypto
pub mod Verify
pub mod Merge
pub mod Commit
pub mod Tests
