-- ===== src/Lib.antt =====
-- redis_agent analyses RDB dumps of a Redis cluster: it decodes a dump into objects, estimates what
-- each object costs in memory, gives objects back as commands, and cleans the keys of a user. This
-- library models its decoder, its objects, the loader of dumps, the analysis of their entries, its
-- memory profiler, its key slots, the cleaner, and the task store with the server's requests.
--
-- The parts, bottom up, with the files they model:
--   Reader     internal/rdb/structure/byte.go. An `io.Reader` is the list of bytes it has not
--              delivered. A piece of the decoder is a function from these bytes to a result: a value
--              with the bytes left, a panic with what it reports, or `stuck`, which is no Go value
--              and says that a loop of the model ran out of fuel.
--   Numbers    internal/rdb/structure/int.go: `ReadUint8` is `read_uint8`, and so on. Little-endian
--              reads; a signed number is the two's complement reading of its pattern.
--   Length     internal/rdb/structure/length.go: `readEncodedLength` is `read_encoded_length`, whose
--              three results (a length, a special encoding, an error) are the type `Encoded`, and
--              `ReadLength` is `read_length`.
--   Decimal    the `strconv` functions that the decoder and the profiler call, on bytes.
--   Lzf, Text  internal/rdb/structure/string.go: `lzfDecompress` is `lzf_decompress`, with its index
--              panics, and `ReadString` is `read_string`.
--   Listpack   internal/rdb/structure/listpack.go: `ReadListpack`, `readListpackEntry`.
--   ZipList    internal/rdb/structure/ziplist.go: `ReadZipList`, `readZipListEntry`.
--   Intset     internal/rdb/structure/intset.go: `ReadIntset`.
--   Memory     internal/utils/memprofiler.go: `MallocOverhead` over the size classes of jemalloc, and
--              the sizes of the structures of Redis; `sort.Search` is written out as in Go's library.
--              Memory.Profile has the methods of `MemProfiler` and the random levels.
--   Objects    internal/rdb/types: a module for each object (string.go, list.go, set.go, hash.go,
--              zset.go, module2.go, stream.go), each with `load_from_buffer` for `LoadFromBuffer`,
--              `rewrite` for `Rewrite` and `mem_overhead` for `MemOverhead`; interface.go's type
--              numbers. ZsetObject also has internal/rdb/structure/float.go.
--              A stream is split: StreamEntries has the entries of one listpack, StreamObject the rest.
--   Dispatch   internal/rdb/types/interface.go: `ParseObject` is `parse_object`, and the interface is a
--              sum of the objects.
--   Info       internal/utils/redis.go: `ParseInfoProp`.
--   Loader     internal/rdb/rdb.go and internal/entry/entry.go: the state of the loader is a record
--              with the entries sent to the channel, one round of `parseRDBEntry` is `next_round`, and
--              the whole of `ParseRDB` after the opening of the file is `parse_rdb`. The clock and the
--              ticker are an argument that gives for each round what it sees.
--   Metrics    internal/statistics/rdbstatistics.go: the counters, their writers, and the round of the
--              loop of `Init`.
--   Crc64      internal/utils/crc64.go, and `createValueDump` of internal/rdb/rdb.go.
--   Analysis   internal/memanalysis/memstatistics.go: the rows of the users from the entries sent,
--              the shares of the rehash overhead, and how `dumpRdb` ends.
--   Pipeline   internal/reader/rdb_reader.go, the end of `ParseRDB` and `Statistic` on the bytes of the
--              dump: the composition of Loader, Metrics and Analysis.
--   Generate   task/generate.go: `GenerateData` is `generate_data`, which gives the commands sent and the
--              error.
--   Cleaner    internal/cleaner/cleaner.go: `Clean` on a list of replies to `SCAN`, with the batches
--              that were unlinked in its state.
--   Server     server/server.go: `createTask`, `checkParam`, `startTask`, `reportProgress`. Server.Running
--              has the parameters of a task and the switch of `startTask`, Server.Middleware the check of
--              server/middleware/middleware.go, and Server.Life the handlers and the goroutines of the
--              tasks as a system: its state has the stored tasks, the requests between their check and
--              their creation and the goroutines, and a step is what one of them does at once.
--   Slot       internal/utils/hashtag.go and crc16.go: `Key` is `key_of`, `Slot` is `slot`.
--   Task       task/task.go: the map of tasks is `Tasks`; `CreateTask` is `create_task`, which gives the
--              tasks after it and its error; the clock is an argument.
-- The decoders of the objects call those of the encodings, these call `read_string` for their bytes
-- and run on the string that it gives, and the estimates call Memory. Child modules hold the proofs,
-- named for what they prove. Common has the shared names, tests and lemmas; Tests applies the theorems
-- to small inputs.
--
-- Numbers: ℕ stands for the unsigned types, and sums that may pass 2 ^ 64 are reduced; `int` is ℤ, and
-- `int(n)` of a `uint64` is `int_of_u64`, which is negative from 2 ^ 63 on. Go panics on a negative
-- size of `make`, and so does the model.
--
-- Fuel: the decompressor gets one round for each byte of its input, since each takes a byte; the
-- loop over a ziplist of unknown count, that over the values of a module and that over the records
-- of a dump get one round more than there are bytes, and that over the entries of a stream one more
-- than there are elements, since each round takes one; `next_power` gets 64 rounds, which are
-- enough below 2 ^ 63, the levels of a skip list get 32, enough for a `uint64`, and a decimal print
-- as many as a `uint64` has digits. Binary search gets as many rounds as the table has entries. The
-- loops of the random levels end by chance or never, so they answer none where the fuel does not
-- do.
--
-- Parameters: floating point numbers with their parser, bit patterns and print (`FloatOps`) and
-- with their quotients and products (`FloatShare`), the slot that is drawn for an empty key, clock
-- readings, the replies of the Redis server, the decoding of JSON and of media types, random draws
-- and values, and the order in which Go visits a map, which gives each pair once. A Go map is an
-- association list with one pair for each key. The encoders in the proof modules describe what
-- Redis writes; they are no code of the repository.
--
-- Not modelled: the HTTP server, its router and JSON, the clients of Redis, opening files, and
-- configuration, logging and start-up, which are I/O. What a loader has sent before a panic is lost
-- in the model. A log line of a task and its status are written in one step, and so is what a
-- request does under the lock: in Server.Life the lock is no part of the state, so a lock that is
-- never released is not found. There a run of a task is one step, with any end, at any time or never;
-- a poll of `dumpRdb` that never ends is a goroutine that stays. A panic in the goroutine of
-- `StartRead`, which nothing recovers and which ends the whole program, is no step.
pub mod Common
pub mod Reader
pub mod Numbers
pub mod Length
pub mod Decimal
pub mod Lzf
pub mod Text
pub mod Listpack
pub mod ZipList
pub mod Intset
pub mod Memory
pub mod Objects
pub mod Dispatch
pub mod Analysis
pub mod Cleaner
pub mod Crc64
pub mod Info
pub mod Loader
pub mod Metrics
pub mod Pipeline
pub mod Generate
pub mod Server
pub mod Slot
pub mod Task
pub mod Tests
