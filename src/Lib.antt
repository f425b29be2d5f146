-- ===== src/Lib.antt =====
-- sipr, a SIP traffic generator: the parts of its crates that carry its own algorithms.
--
-- The program runs SIPp scenarios. crates/sipr-engine/src/engine.rs drives the calls of a run; it
-- arms and cancels timers, paces retransmissions by a schedule, finds a call by its Call-ID in a
-- table, and takes whole SIP messages from stream connections. The authentication and media crates
-- turn keys into text and RTP packets into SRTP packets.
--
-- The files, and what they model (a function keeps its Rust name, a method its method's name; a
-- method on `&mut self` takes the state and returns it, with its result as the second component):
--   Timer    crates/sipr-net/src/timer.rs: the queue of deadlines and the service over it. The
--            binary heap is a list in the heap's order, the set of tombstones a list, an instant a
--            number. Order, Live, Refine, History and Count are about the queue, Service is about
--            the thread that sleeps toward the earliest deadline, as a step relation.
--   Retrans  crates/sipr-net/src/retrans.rs: the waits between retransmissions. A duration is its
--            number of nanoseconds, at most that of Duration::MAX, and products saturate there.
--   Table    crates/sipr-net/src/table.rs: the sharded table of calls. The hash is a parameter, and
--            a shard an association list.
--   Framer   crates/sipr-net/src/tcp.rs (the framer of streams): messages cut out of a stream by
--            Content-Length, with the parser of that number on usize of 64 bits.
--   Message  crates/sipr-net/src/message.rs: the parser of a message that came in, and (Message/Headers)
--            the look-up of its headers and their parameters. The lossy decoding of UTF-8 is a parameter.
--   Base64   crates/sipr-auth/src/base64.rs: the codec.
--   Hash     crates/sipr-auth/src/hash.rs: SHA-1, HMAC-SHA1, MD5 and SHA-256 on words modulo 2 ^ 32.
--   Aes      crates/sipr-auth/src/aes.rs: AES-128 of one block.
--   Milenage crates/sipr-auth/src/milenage.rs: the functions of IMS AKA over it.
--   Auth     crates/sipr-auth/src/lib.rs: digest authentication over those four, the client's answer to
--            a challenge and the check of an answer. Auth/Aka, Auth/Response and Auth/Verify have the
--            definitions, the other files of Auth the lemmas. A text is the list of its code points.
--   Srtp     crates/sipr-media/src/srtp.rs, and Srtp/Cipher crates/sipr-auth/src/srtp_kdf.rs: one
--            direction of an SRTP stream, its keys and their text. It takes the block cipher and
--            the digest as an interface, which Srtp/Suites fills from Aes and Hash.
--   Vars     crates/sipr-engine/src/vars.rs, with VarTable of crates/sipr-scenario/src/model.rs: the
--            variables of a call, of a user and of the run. A shared table is an address into a heap.
--            Vars/Values has the views of a value, over parameters for std's doubles and texts.
--   Rng      crates/sipr-net/src/rng.rs: the generator, on words of 64 bits.
--   Tdm      crates/sipr-engine/src/tdm.rs: the parser and the circuits of a TDM map, on words of 32
--            bits.
--   Ws       crates/sipr-net/src/ws.rs: frames of the WebSocket protocol, the framer, and the wire of a
--            connection over parameters for what it writes and replies; the HTTP upgrade of both sides
--            (Ws/Handshake), which writes with Base64, Hash and Rng and cuts lines as Message does.
--   Regex    crates/sipr-scenario/src/regex.rs: the patterns' parser and the backtracking matcher with
--            its budget and its captures.
--   Json     crates/sipr-control/src/json.rs: the writer and the parser of values, over parameters for
--            std's texts of doubles and for UTF-8.
--   Histogram crates/sipr-stats/src/histogram.rs: the latencies in buckets of one millisecond, and the
--            repartition table; the doubles are a parameter.
--   Common   what these share: tests, lists over the native numbers, byte tables, exclusive or.
-- The file Runs of a part holds its tests and the theorems at concrete inputs.
--
-- Loops are structural. Those that are not: the parser of a number in Framer skips white space on
-- fuel of the text's length (each step drops a byte); the groups of a TDM map run on that length too,
-- which Tdm/Parse shows to be enough; the key stream runs on the number of its chunks of 16 bytes; the
-- padding of the hashes has fuel for 64 zeros, one more than it can need, and their rounds run on the
-- lists of words and the number of chunks. The loops of Ws run on the length of the buffer, which
-- Ws/Rounds and Ws/Wire/Ends show to be enough; the parser of patterns runs on four times the text's
-- length and four more (Regex/Parse/Enough), a repetition on the length of the text and one more
-- (Regex/Fuel), the parameters of a challenge on that too (Auth/Params), and the parser of JSON on
-- twice the text's length and two more, which Json/RoundTrip shows to be enough for the texts that the
-- writer makes. The head of an upgrade is read by recursion on the reads of its stream.
--
-- Not modelled: sockets, threads, TLS and the terminal (input and output, so that a read
-- which fails has no model); the XML scenarios and the engine's interpreter of them; media
-- files; the other statistics; the rest of the control interface.
pub mod Common
pub mod Timer
pub mod Retrans
pub mod Table
pub mod Framer
pub mod Base64
pub mod Hash
pub mod Aes
pub mod Milenage
pub mod Srtp
pub mod Vars
pub mod Rng
pub mod Tdm
pub mod Ws
pub mod Regex
pub mod Json
pub mod Histogram
pub mod Auth
pub mod Message
