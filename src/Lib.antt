-- ===== src/Lib.antt =====
-- Space Sync (ssync): file transfer over lossy datagram links, with repairs by missing ranges.
--
-- A sender cuts a file into chunks of `chunk_size` bytes. It announces them by a METADATA frame that
-- carries the manifest, and sends each chunk in a DATA frame. The receiver tracks which chunks have
-- arrived, as a sorted list of half-open ranges, and answers with STATUS frames that name the ranges
-- it misses; the sender then sends those chunks again. BEACON frames say that the peer is alive.
--
-- The files and the code they model:
--   Ranges, Ranges/Wire   src/ssync/space_sync/ranges.py: `merge_ranges`, `ranges_from_indexes`,
--                         `expand_ranges`, `limit_ranges_to_chunk_budget`, `encode_ranges` and
--                         `decode_ranges`. Ranges/Cover says what a list of ranges covers and when it
--                         is canonical; Ranges/Merge, Indexes, Budget and Quotient hold the theorems.
--   Tracker               `ChunkTracker` of the same file. Each method that changes the object returns
--                         the new one. Tracker/Search is about the binary search, Insert and Walk
--                         about what `add` does to the list, Invariant, Missing and Restore about the
--                         methods.
--   Frames                src/ssync/space_sync/frames.py: the frame header, and in Frames/Data, Tlv,
--                         Manifest, FileInfo, Status and Beacon the payloads. Frames/Errors is about
--                         the errors of all decoders.
--   Receiver              src/ssync/space_sync/receiver.py: `_accept_data` for a known transfer, with
--                         `_maybe_send_beacon` and `_queue_finalization`, and the transfer that
--                         `_prepare_transfer` makes. What the code does to the world is a list of
--                         effects. Receiver/Slices and Chunks are about the bytes, Copy about
--                         one chunk, Deliver and Reassembly about all chunks of a file.
--                         Receiver/Repair holds the periodic repair requests, with the part of
--                         `ReceiverConfig` that they read.
--   PreMetadata           the same file: the buffers for chunks that come before their METADATA.
--                         PreMetadata/Bounds is about one chunk, Run about any sequence of events.
--   Paths, Hex, Decimal   `_safe_destination_path`; `bytes.hex()` and `bytes.fromhex`; `str` and `int`
--                         of whole numbers.
--   Server                the state of `SpaceSyncReceiver` and what changes it. Server/Dispatch is the
--                         loop of `run` for one datagram with `_handle_frame`, Prepare and Accept
--                         `_prepare_transfer` and `_accept_data`, Completed the search for a file that
--                         is there already and the file info queries, Finalize the finalization
--                         worker, Tick what is done by the clock. Server/Arrivals, Opening, Delivery
--                         and Datagrams follow a file from its METADATA to its place. Server/Table,
--                         Consistency, Opened, Run and Events are about the table of transfers and its
--                         index by signature.
--   Journal               the values of a JSON document, and in Journal/Save, Load and Restore
--                         `_save_journal_locked`, `_flush_journal_locked`, `_load_journal` and
--                         `_restore_transfer`. Journal/Clear is `_maybe_handle_clear_request`, with
--                         src/ssync/space_sync/output_dir.py. Journal/Pieces, RoundTrip, Signatures,
--                         Survivors and Restart follow a table from its journal to the next start,
--                         Cleared is about the clear request.
--   Sender                src/ssync/space_sync/sender.py: `_read_chunk`, `_send_requested_repairs`
--                         with `_apply_rate_limit`. Sender/Repairs is about what arrives of it.
--                         Sender/Drain is `_drain_repair_requests`.
--                         Sender/OpenLoop and OpenLoop/Send are `send_file` without feedback; Steps,
--                         Coverage, Undisturbed, Stream and Announced are about its frames.
--                         Server/Waiting, Link and EndToEnd bring them to a receiver.
--                         Sender/Query is `query_remote_file`, and Server/Queried its answer.
--   Types                 src/ssync/space_sync/types.py and manifest.py: constants, enumerations and
--                         records. A member of an enumeration is a constructor, and its integer is
--                         given by `frame_code` and the like.
--   Struct                the part of Python's `struct` that frames.py uses: big-endian unsigned
--                         integers and byte strings of a fixed size; a number out of range is an error
--                         of `struct`, and a byte string is cut or filled with zeros.
--   Utf8                  `str.encode` and `bytes.decode` for UTF-8 with strict errors; a string is
--                         the list of its code points.
--   Dict                  `dict` as an association list in the order of insertion.
--   Result                what a function returns or raises. A message that shows a value keeps its
--                         constant part.
--   Prelude               library names passed on, Boolean tests and lists over the native numbers.
--   Tests                 runs at concrete inputs, and examples of the theorems.
--
-- Numbers. Integers that the code keeps non-negative are natural numbers: sizes, chunk indexes,
-- counts, the ends of ranges. A test `x <= 0` is kept as it is. Integers on the wire are in the range
-- of their field, 2^8 to 2^64. Where a range is reversed, its length is 0 here, as in Python's
-- `range`; the code's `end - start` is negative there, and the theorems ask for proper ranges where
-- that matters.
--
-- Fuel. The loop of `_find_insert_at` takes the length of the list and one, since the interval halves
-- at each round. The loop of `decode_tlvs` takes the length of the payload, since each round reads at
-- least the three bytes of a header. The loops that evict buffers take the number of buffers, since
-- each round evicts one. All other loops are recursions on their list.
--
-- Times are natural numbers, in milliseconds, and one call sees one `now`. Whether a datagram can be
-- sent and whether a file can be mapped are arguments. The test `received / requested >= 0.75` on
-- floats is `3 * requested <= 4 * received`.
--
-- The receiver runs several threads under one lock. A handler, a tick and a step of the finalization
-- worker are each one step here, and what they do to the world is a list of effects in order. An
-- exception that leaves a handler is an effect, with no change of the state and no effect behind it,
-- and it ends the loop of `run` where it comes from there. The
-- queue of the worker holds the keys of transfers, where the code holds the objects. The hash is a
-- parameter. The output directory is a table of regular files; a transfer holds the contents of its
-- part file, apart from that table and from other transfers, and the calls of the file system succeed,
-- but for the mapping of a part file that is too short. The clearing of the directory is one step,
-- though the code gives up the lock before it empties the queue and the directory.
--
-- The journal is a JSON value: what `json.dumps` writes is what `json.loads` reads. A time in it is a
-- number of milliseconds. `str` of a value that is no text and `float` of a text are parameters. Where a
-- record has a negative number for a size, a key, a port or the end of a range, which the receiver never
-- writes, the model has no number, and its load ends with the error `outside`. Effects say where the
-- handlers mark and flush the journal; what a flush writes is a function of the table.
--
-- Not modelled: the contents of the monitor events of the receiver, the modes of `send_file` with feedback
-- and the repairs thread of the sender, sockets, threads, mmap, logging, the terminal monitor, the
-- configuration file and the command line. `summarize_ranges` only formats log lines.
pub mod Prelude
pub mod Result
pub mod Dict
pub mod Struct
pub mod Utf8
pub mod Types
pub mod Ranges
pub mod Tracker
pub mod Frames
pub mod Sender
pub mod PreMetadata
pub mod Paths
pub mod Hex
pub mod Decimal
pub mod Journal
pub mod Server
pub mod Receiver
pub mod Tests
