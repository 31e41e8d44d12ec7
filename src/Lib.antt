-- ===== src/Lib.antt =====
-- Chunk grouping: a verification library for the storage side of a delta-compression system.
--
-- A file is cut into chunks (chunk/), each chunk gets a feature (feature/), an index of features
-- finds an earlier chunk that looks alike (index/), and the storage (storage/) writes the chunk as a
-- base chunk or as one that belongs to a base. Then the chunks of each base are compressed together.
-- `DeltaCompression::AddFile` in delta_compression.cpp drives these parts.
--
-- Files:
--   Prelude    names of the library, tests, lists over native numbers, words and bit operations
--   Gear       utils/gear.h: the table, one step of the gear fingerprint, and a run of steps
--   Chunk      chunk/chunk.h: `Chunk` and the functions that make one
--   FastCdc    chunk/fast_cdc.{h,cpp}, chunk/chunker.h and what they use of utils/mapped_file.h:
--              `ReinitWithFile`, `GetNextChunk`, and the loop that takes all chunks of a file
--   Rabin      utils/rabin.{h,cpp}: degree, remainder, tables and the rolling fingerprint
--   RabinCdc   chunk/rabin_cdc.{h,cpp}: the same operations as FastCdc, with a Rabin fingerprint
--   Stdio      the calls of <cstdio> that the storage makes, on a stream of items with a position
--   Cache      storage/cache.{h,cpp}: nodes on an explicit heap, a map into them, two dummy nodes
--   Storage    storage/storage.{h,cpp}: the data file and the meta file, the three writers,
--              `GetChunkContent` and `GetDeltaEncodedChunk`
--   Grouping   storage/storage.cpp: `dividByBase` and `groupByBase`
--   Features   feature/features.{h,cpp}: sub-features and super features of a chunk
--   Index      index/*.{h,cpp}: the three indexes from features to base chunks
--   Compression  delta_compression.{h,cpp}: `AddFile`, over the interfaces of the chunker and the
--              index, and the choices of both that the configuration has
--   Pipeline   pipeline_delta_compression.{h,cpp}: the five workers and the queues between them, as
--              a step relation
--   MetaFile   storage/file_meta.h: the text of file metas, its writer, its reader and the search by
--              name
--   OurFeature our_feature.h, storage/our_feature.cpp: statistics of a run of bytes
--   Encoder    encoder/encoder.h, encoder/xdelta.h: `XDelta` and the buffer that its chunks refer to
--   Configuration  delta_compression.cpp: what the constructor makes of the configuration
--   Mapping    utils/mapped_file.h: who owns a mapping when objects are moved and destroyed
--   Program    main.cpp: the task, the class that the configuration chooses, and `AddFile` for each
--              regular file of a directory
--   Dedup      dedup/dedup.h: chunks with an equal digest
--
-- State. A record holds the members of a class, with the names of the source less the underscore
-- behind them; an operation takes the record and returns it with its answer. A pointer into a mapped
-- file is the list of bytes from there on, so that a read past the mapping is `none`. A word keeps
-- its wrap-around, by `u8`, `u16`, `u32`, `u64` and `sub64`. Logging is left out.
--
-- Loops. A loop over a buffer is recursion on the rounds or on the list. `mod` of the Rabin
-- fingerprint has 65 rounds, more than a word has degrees. The loop over all chunks has fuel, and
-- one more than the bytes of the file is enough. The loop over the runs of a group has the number
-- of chunks for fuel, the search in a meta file one more than its bytes, a decimal number ten
-- digits, which is enough for a `uint32_t`, and the loop of the cache that makes room one more than
-- the nodes that were ever made: a cache that counts less memory than its limit evicts one at most.
--
-- Parameters. The compressors of LZ4 and Zstandard are functions from a buffer to a size, and the
-- digest of utils/sha1.cpp (a copy of another project's code) is a function of the bytes. The file
-- system is a function from names to contents, a table of the configuration one from keys to values.
-- The floating-point numbers are a type with their operations, and the two functions of xdelta3 that
-- the encoder calls are functions of their buffers.
--
-- How the parts meet. `Compression.Laws` has the laws of an index as the interface `Indexed`, which
-- `Compression.Palantir` and `Compression.BestFit` fill; what it asks of a chunker is `Yields`, which
-- `Compression.Reads` gives for FastCDC. `Compression.Loop` is the loop over any of them. It rests on
-- `Storage.Cached`, where the files, the abstract cache of `Cache.Lru` and its refinement by the list
-- on the heap come together, and on `Storage.Based`, the shape of the records, on which
-- `Grouping.Whole` rests too. `Compression.Whole` puts the loop and the grouping together,
-- `Program.Walk` one file after the other, and `Program.Stores` adds the constructor and `main`.
-- `Pipeline.Sequential` is the pipeline without its queues, and `Pipeline.Determined` compares the two.
--
-- In the steps of the pipeline a wait is a guard: nothing is said of a wake-up that is lost.
--
-- Not modelled: lost wake-ups of the pipeline; the command line and the parsing of the configuration
-- file; the libraries under 3party/, of which xdelta3 is a parameter of the encoder; the report
-- of the destructor of `DeltaCompression`, which is output; utils/hamming_distance.h, which nothing
-- uses.
pub mod Prelude
pub mod Gear
pub mod Chunk
pub mod FastCdc
pub mod Rabin
pub mod RabinCdc
pub mod Stdio
pub mod Cache
pub mod Storage
pub mod Grouping
pub mod Features
pub mod Index
pub mod Dedup
pub mod Compression
pub mod Pipeline
pub mod MetaFile
pub mod OurFeature
pub mod Encoder
pub mod Configuration
pub mod Mapping
pub mod Program
