-- ===== src/Lib.antt =====
-- A model of the core of tortor, a BitTorrent client, and the theorems that make it correct.
--
-- The program reads a torrent file, of which the scanner finds the bytes to hash and `build_meta`
-- checks the decoded fields, and downloads the torrent in pieces. The coordinator owns the piece
-- manager and the disk: it answers the messages of the peer sessions, checks stored files, and
-- tells the sessions what is complete. The piece manager decides which piece a peer is asked for,
-- by the bitfield of that peer and the file selection. A session talks to one peer: it takes a
-- piece from the coordinator, asks for its blocks and hands it over when its hash is right, and
-- it answers the peer's requests while it holds one of the upload slots that the sessions of a
-- torrent share. The assembler puts the blocks of one piece together; the wire module turns the
-- bytes of a peer into messages and back, after the handshake. The swarm keeps the queue of peers
-- to connect to, starts and ends the sessions, and announces to the trackers. With a magnet link
-- the metadata assembler collects the info dictionary first. Finished pieces are saved in a
-- resume record and restored from it. Peers are found by peer exchange, whose messages carry
-- compact address lists, and by the DHT, whose routing table answers which nodes are closest.
--
-- Files and code (paths from the root of the repository):
--   Bitfield           src/core/bitfield.rs            Bitfield and all its methods
--   Selection          src/core/selection.rs           Selection; TorrentFile of src/core/torrent.rs
--   Manager            src/core/manager.rs             TorrentManager and its methods but progress
--   Assembler          src/core/assembler.rs           PieceAssembler and its methods
--   MetadataAssembler  src/core/metadata_assembler.rs  MetadataAssembler and its methods
--   Wire, Wire.Send    src/net/wire.rs                 MessageDecoder, parse, the send functions
--   Wire.Next                                          next, over a list of reads
--   Handshake          src/net/handshake.rs            Handshake and its codec
--   Torrent            src/core/torrent.rs             TorrentMeta, piece lengths, safe paths;
--                      src/net/tracker.rs              is_supported_tracker
--   Bencode            src/core/bencode.rs             the scanner: parse_byte_string, skip_bencode_value
--   Bencode.Slice                                      extract_info_dictionary_slice
--   Bencode.Meta                                       build_meta, after decoding
--   Bencode.Parse                                      check_bencode_depth, parse_torrent_bytes and
--                                                      parse_torrent_metadata_bytes
--   Coordinator        src/core/coordinator.rs         messages, effects and the state
--   Coordinator.Handlers                               pieces, blocks, selection, pause
--   Coordinator.Loop                                   check of files, metadata, a round, a run;
--                      src/ui/dashboard.rs             initial_coordinator_state
--   Session            src/net/session.rs              the state of a peer session and its turns
--   Session.Slots                                      UploadSlots, try_unchoke, choke
--   Session.Work                                       work, the pipeline of requests, blocks
--   Session.Messages                                   announcements and messages
--   Session.Loop                                       housekeeping, the loop, start and end, and
--                      src/net/swarm.rs                the sessions that share the slots
--   Swarm              src/net/swarm.rs                the peer queue, announcing
--   Swarm.Loop                                         the loop of run_swarm_manager
--   Resume             src/core/resume.rs              the binary resume record, restart of a manager
--   Pex                src/net/pex.rs                  compact address lists and the message
--   Routing            src/net/dht/routing.rs          node ids, buckets and the routing table
--   Prelude            shared tests, lists, bits, words, sets of numbers and results
--
-- Conventions. A method that changes `self` takes the state and returns the new one beside its
-- result. Bytes and machine words are natural numbers; arithmetic that can wrap has its modulus
-- written out. Hash sets and hash maps are lists without repetition, and the theorems speak of
-- membership only. Clock readings and random choices are arguments, so the theorems hold for all
-- of them. Errors are values, one constructor for each message of the code. A loop that waits for
-- several sources at once is a step on its state: each step has one thing that happened, with the
-- answers of the disk and of other tasks that the code receives in it, and a run is any list of
-- those. What a step sends is the list of its effects, in order.
--
-- Fuel. The loop of `decode` takes a unit for each buffered byte and one more: a round that goes
-- on consumes four bytes at least. `insert` of the routing table has 161 rounds: each but the
-- last splits the last bucket, whose prefix is at most 160. `chunks_exact` has a round for each
-- byte. `next` has a round for each read and one more, and waits when they are used up.
-- `skip_bencode_value` has twice the length of the input and two more: a value and a loop take a
-- unit each, and a value takes a byte. `extract_info_dictionary_slice` has a round for each byte.
-- `check_bencode_depth` has a round for each byte. The loop that fills a session's pipeline has
-- 16 rounds, as many as the requests that may be in flight: each puts one there. The loops of a
-- coordinator, a session and a swarm run over the list of what happens to them, so they need no
-- fuel.
--
-- Not modelled: what runs outside of this process or is a library (sockets, files, TLS, UPnP,
-- SHA-1, the bencode decoder, the terminal); the dashboard apart from the state that it starts a
-- coordinator with; the DHT node apart from its routing table; trackers, magnet links, rate
-- limits, the exchange of metadata between peers, and the disk's caches. What the modelled code
-- is told by these parts is an argument: an answer of the disk, of a tracker or of a peer is any
-- value of its type, and the theorems hold for all of them.
pub mod Prelude
pub mod Bitfield
pub mod Selection
pub mod Manager
pub mod Assembler
pub mod MetadataAssembler
pub mod Wire
pub mod Handshake
pub mod Bencode
pub mod Coordinator
pub mod Pex
pub mod Resume
pub mod Routing
pub mod Session
pub mod Swarm
pub mod Torrent
