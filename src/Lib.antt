-- ===== src/Lib.antt =====
-- Verification library of monero-solo-stratum, a solo-mining Stratum server for Monero. The
-- program takes block templates from a daemon, makes private jobs for miners, checks the shares
-- they send, journals and submits network candidates, and guards itself against abuse.
--
-- Parts and files.
--
-- Defense (src/stratum/defense.cpp): the engine that admits connections, requests, submissions and
-- candidates, and bans abusive peers. `Defense.antt` has the configuration and the state,
-- `Defense/Bans.antt` the ban table with its index by expiry, `Defense/Peers.antt` the peer states
-- in their order of use, `Defense/Rates.antt` token buckets and sustained hammering,
-- `Defense/Admission.antt`, `Defense/Candidates.antt` and `Defense/Evidence.antt` the public
-- operations. A peer address is its family and the number that its bytes write. A double is any
-- type with the operations that the source uses, since what is shown does not depend on rounding.
-- An iterator into the order of use is the peer's place in the list. Each operation reads the
-- clocks as arguments and holds the engine's lock, so concurrent clients are a list of calls with
-- their times (`Defense/Histories.antt`). The loop that makes room for a peer has the length of
-- the order of use as its fuel, which suffices because a round shortens the list or examines one
-- more peer of it.
--
-- Duplicates (src/stratum/duplicate_registry.cpp, with its header in include/monero_solo/): the
-- registry that lets each proof of work be credited once. `Duplicates.antt` has the state
-- (DuplicateRegistry, Entry, Bucket, DuplicateToken) and one function per method: reserve,
-- release, retain_height, retire_height, release_height, restore, collect_bucket. A map is an
-- association list, a key set an ascending list, a 48-byte key its big-endian value. Each method
-- holds the registry's lock, so concurrent clients are a list of calls
-- (`Duplicates/Operations.antt`). Allocation failures, and the catch blocks that undo a half-made
-- entry after one, are not modelled.
--
-- Entropy (src/crypto/entropy.cpp): the deterministic generator of private template entropy and
-- job ids. `Entropy.antt` has its state and its methods. HMAC with SHA-256 is a parameter, and
-- that a digest has 32 bytes a named hypothesis where it matters; the process id, the samples of
-- the entropy source and the clock are what each call sees at each place where it looks (World). A
-- method that throws also gives the state that it leaves. The loop that gathers the output has the
-- number of bytes as its fuel, which suffices since a digest is not empty. `Entropy/Steps.antt`
-- and `Entropy/Freshness.antt` follow a call through its reseeds.
--
-- Events (src/events/event_stream.cpp): the socket on which local subscribers follow the committed
-- events. `Events.antt` has the state and one function per method; what the system calls give is
-- an argument, and a descriptor carries the bytes that the kernel took for its peer, so that what
-- a subscriber sees can be stated. `Events/Feed.antt` has the calls and the abstract feed, the log
-- of committed events; `Events/Walk.antt` the loops over the clients from the last to the first,
-- `Events/Queues.antt` the bytes a client still has to be sent, `Events/Streams.antt` the relation
-- of the stream to the feed, `Events/Lifecycle.antt` start. A thread calls accept_clients and
-- service_clients in turn, and each call holds the lock, so the program is a list of calls.
--
-- Hex (src/crypto/util.cpp): hexadecimal text, as lists of character codes (`Hex.antt`,
-- `Hex/RoundTrip.antt`).
--
-- Mailbox (src/verifier/completion_mailbox.cpp): the bounded table through which the completions
-- of the verifier reach their waiters. `Mailbox.antt` has the state and one function per method; a
-- completion is its tag and a payload, and the two waits are taken at the moment they stop
-- waiting. Each operation holds the mailbox's lock, so concurrent callers are a list of calls
-- (`Mailbox/Delivery.antt`).
--
-- Monero (src/monero/monero.cpp): `Monero/Reader.antt` has class Reader and encode_varint. Bytes
-- are numbers below 256 and the reader is the list of unread bytes with the position. The loop of
-- varint has at most ten rounds, as in the source; the loop of encode_varint has the value plus
-- one as its fuel, which suffices because each round divides the value by 128.
--
-- `Monero/Parse.antt` has the sequence of parsers, `Monero/Block.antt` parse_block with the
-- parsers below it, one parser per function or stretch of a function, in the order of the source.
-- `Monero/Local.antt` and `Monero/BlockLocal.antt` show that a parser looks only at the bytes that
-- it consumes and at how many follow, which is what replacing bytes further behind relies on
-- (`Monero/Nonce.antt`). `Monero/Mutate.antt` has insert_nonce, mutate_reserved_bytes and
-- reserved_offset_is_exact_extra_nonce; the loop over the extra field has as much fuel as the
-- field has bytes, which suffices because each field takes at least its tag. `Monero/Target.antt`
-- has the difficulties and targets: a 32-bit limb is a number below 2^32, arithmetic on 64 bits
-- keeps its wrap-around, an index i + j into the product is the place j in what is left of the
-- product after i limbs; `Monero/Product.antt`, `Monero/NetworkTarget.antt` and
-- `Monero/ShareTarget.antt` relate them to arithmetic.
--
-- Stratum server (src/stratum/stratum.cpp): Stratum/Targets has the difficulties of a login, the
-- targets on the wire and the texts of share results; Connections a connection with queue,
-- write_ready and remember_job; Config the constructor; Submits the two lanes of submissions:
-- admit_pending is the end of handle_submit under the submissions' lock, take_work and
-- complete_work are the two halves of submit_worker around the handler's call, and
-- drain_submit_results answers the results. Json has what the source uses of the JSON library
-- (Json), the callback that looks for duplicate keys and depth, parse_id and strict_keys; Login
-- has handle_login and handle_keepalive, Submission what handle_submit reads, Requests
-- handle_submit, dispatch and process_line, Reading read_ready with its loop over lines, whose
-- fuel is the number of bytes, which suffices because a line takes at least its newline. Upkeep
-- has refresh_jobs_now and close_expired. The admission of requests by the defense engine, the job
-- provider and the admission resolver are functions (Callbacks); the job provider has a job, none,
-- or throws (JobAnswer), and an exception ends the event loop. An index names a connection, so
-- that a submission and the event loop mean the same one; a connection that is gone stands as one
-- that is closing. write_ready takes the kernel's answers as a list of functions of the bytes that
-- it is given; sent_bytes, which the source does not keep, has the bytes that the kernel took.
-- SubmitHistories has the steps of the event loop and the workers in any order, LineHistories
-- those with what is read from the miners. Peers has the tables of connections and of peers:
-- accept_connection is the guarded part of accept_ready, remove_connection the end of
-- close_connection, of which Connections has the beginning. Difficulty, TargetText, Output,
-- Sending, JobMemory, Settings, SubmitCounts, SubmitSteps, Admission, PeerCounts, Replies,
-- LoginReplies, SettleReplies, Fates, SubmitFates, HandlerFates, LineFates, LiveIds, DrainedIds,
-- KeptIds, Credentials, Guests, ReadIds, ReadBounds, Framing, Refresh, RefreshLoop and Expired
-- carry the proofs.
--
-- Verifier (src/verifier/verifier.cpp, with its header in include/monero_solo/): the adapter
-- between the program and the native verifier. The native verifier is a submodule and a parameter
-- (Native): its calls on its context. `Verifier/Table.antt` has the table of outstanding
-- submissions with its searches, whose fuel is the table's size as in the source;
-- `Verifier/State.antt` the state with find_seed_locked, seed_snapshot_locked and
-- maybe_begin_seed_release_locked; `Verifier/SeedCalls.antt` the operations on seeds;
-- `Verifier/Submissions.antt` submit_locked, correlate_completion_locked, drain_completions and
-- shutdown; `Verifier/Construction.antt` map_config and the constructor. A pointer to a seed's
-- record is its place in the list, and a seed hash is the number that its bytes write.
-- `Verifier/Wakeups.antt` has the flag and the callbacks, which take no lock;
-- `Verifier/Destruction.antt` the statistics and the destructor, whose loop over completions has
-- as fuel any number above a bound that each successful poll lowers. The loop of
-- submission_table_size has the size that is wanted as its fuel, more than the doublings that lead
-- there. `Verifier/Probes.antt`, `Verifier/Search.antt`, `Verifier/Placement.antt`,
-- `Verifier/Updates.antt` and `Verifier/Lookup.antt` show that the table is a map;
-- `Verifier/Invariant.antt` and the files named for steps follow the seeds; each operation holds
-- the lock, so concurrent clients are a list of calls (`Verifier/Histories.antt`).
--
-- Common: lists and tests over native numbers, association maps with their laws
-- (`Common/Map.antt`), bit operations as arithmetic (`Common/Bits.antt`), and values or exceptions
-- (`Common/Outcome.antt`).
--
-- How the parts interact: the Stratum server asks the defense engine before it reads from a peer,
-- checks a share against the target of its job, reserves its key in the duplicate registry, and
-- waits in the mailbox for the verifier; a share that meets the network target becomes a block by
-- insert_nonce; private templates and job ids come from the entropy manager by
-- mutate_reserved_bytes. The verifier adapter gives the mailbox its completions. In the model of
-- the server the defense engine's admissions, the job provider and the admission resolver are
-- arguments; the runtime, which makes the other calls, is not modelled.
--
-- Not modelled: in the Stratum server start, stop and the observer; the runtime, the
-- configuration, block and transaction hashes, Keccak, addresses, blocknotify command lines; and
-- sockets, polling, threads, the database, the daemon client, logging and process spawning, which
-- are input and output.
mod Common
pub mod Defense
pub mod Duplicates
pub mod Entropy
pub mod Events
pub mod Hex
pub mod Mailbox
pub mod Monero
pub mod Stratum
pub mod Verifier
