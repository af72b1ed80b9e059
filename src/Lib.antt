-- ===== src/Lib.antt =====
-- rootcell: isolated virtual machines for coding agents, with a firewall VM between an agent and
-- the network, and a spy that records and explains the calls of the agent to its model.
--
-- The parts, and the files that model them:
--   * Instance (src/rootcell/instance.ts): the instances on the host. Name has the names of
--     instances and of their VMs, Name.Selection the file of the selected instance, Ipv4 the
--     addresses as 32-bit numbers, State the network of an instance with its check and its
--     allocation from a pool, and Disk the instances directory, a list of entries that the
--     operations take and return. A call that throws is a Result with one constructor for each
--     message.
--   * Config (src/rootcell/env.ts, src/rootcell/init-env.ts, src/rootcell/extensions/config.ts): the
--     text files of an instance, each read from a list of lines. An environment is a list of
--     variables, and a map or a set is a list.
--   * Command (src/rootcell/args.ts, src/rootcell/copy.ts): the command line. The scanners read the
--     arguments, Args.Parse reads what yargs made of them, which is an argument, and Copy has the
--     operands of the copy command.
--   * Provider (src/rootcell/tunnels.ts, src/rootcell/providers/lima-version.ts,
--     src/rootcell/providers/aws-ec2-config.ts, src/rootcell/providers/aws-ec2-network.ts): the
--     choice of a local port, the version of Lima, and the settings and the network of the AWS
--     provider, which uses the addresses of Instance.
--   * Spy.EventStream (src/spy/eventstream.ts): the decoder of AWS event streams over lists of
--     bytes, with the table-driven CRC-32 in Crc, the typed headers in Headers, the layout of a
--     message in Frames and the comparison of the decoder with the layouts in Exact.
--   * Spy.Cursor (src/spy/cursor.ts): the readers of varints, of protobuf fields without a schema,
--     of Connect frames, and of JSON objects inside a text.
--   * Spy.Compaction (src/spy/compaction.ts): the assessment whether an agent has compacted its
--     conversation, with the blocks in Blocks, the request for a summary in Summarization and the
--     drops in Signals; Asks, Drops and Transition say on the sizes, counts and texts of two requests what
--     is taken for a compaction.
--   * Spy.Records (src/spy/schemas.ts): the calls of an agent, the rows that belong to a call, and the
--     events of the spool.
--   * Spy.Tokens (src/spy/tokens.ts): the texts whose tokens are counted, and the keys of the counts.
--   * Spy.Store (src/spy/store.ts, src/spy/migrations.ts): the database of the spy, a list of rows for
--     each table. Tables has the statements with their keys and references, Persist the transaction
--     of each event, Ingest the batches that are read from the spool directory, Retention the
--     deletion of old calls, Consistency the states that these operations reach, and Queries the
--     pages of the list of calls, the search, the diff with the previous request and the composition
--     of a request, and Tokens the cache of token counts. A transaction that fails gives an error and
--     no database. Times are whole
--     milliseconds. The providers' normalisation is an interface (SpyProviderAdapter).
--   * Spy.Service (src/spy/service.ts): the workers of mapWithConcurrency as a step relation, in which
--     any worker that can go on may be the next, and the subjects whose tokens are not counted yet.
--   * Prelude: lists, tests and JavaScript strings (lists of code units), decimal numerals, results
--     and bit operations that the parts share.
--
-- Loops whose length is no list run on fuel: the allocation of a network has one unit for each
-- network of the pool and one more, and the decoders have the length of their input, of which each
-- round takes at least one byte. The deletion for the size has one unit for each call, of which each
-- round deletes at least one, and a client of the pages one more than there are calls.
--
-- Arguments of the definitions stand for what the platform does: the regular expressions of the
-- compaction patterns, the decoding of UTF-8, SHA-256, gunzip, JSON.parse, the test whether a
-- port is free, the bytes that SQLite's pages take,
-- what its full-text index and its LIKE match, the texts of numbers and JSON values, Base64, and
-- yargs.
--
-- Not modelled: the file system beyond the contents that are read and written, JSON texts (a file
-- is unreadable, or the fields that it has), the calls of other programs, the
-- deletion of token counts with their calls (their table stands apart), the health and the write lock of the database of the spy, its web service but for the
-- parts above, promises that reject, the completion of the command line, and the normalisation of
-- messages.
pub mod Prelude
pub mod Instance
pub mod Config
pub mod Provider
pub mod Spy
pub mod Command
