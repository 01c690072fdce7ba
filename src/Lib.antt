-- ===== src/Lib.antt =====
-- InfoMesh, a peer-to-peer search engine: a model of its core, translated from the Python sources
-- under infomesh/, and the theorems about it.
--
-- Nodes crawl pages, index them, and answer each other's queries. This development models the
-- parts on which a node relies when it deals with peers that it does not trust, and the bounded
-- in-memory structures that a long-running node keeps. The files follow the packages of the
-- program:
--
-- * Prelude holds what the modules share: lists and tests over the native numbers, equality as an
--   interface, Python's insertion-ordered dictionaries with their laws (Prelude/Dict), calls that
--   may raise (Prelude/Result), the interface of SHA-256 (Prelude/Hash), powers of two and tables
--   (Prelude/Powers).
-- * Trust/Merkle models infomesh/trust/merkle.py: hash_pair and hash_leaf are _hash_pair and
--   _hash_leaf, build, get_proof, verify_proof and verify_document the methods of MerkleTree. The
--   while loop of build is grow, with one round of fuel per hash; a round halves the level, so
--   the fuel is never used up (Tower-grow). The loop pads the levels above the first in place,
--   and the model keeps them padded. The hashes are ASCII, so that encode('ascii') does not
--   raise.
-- * P2p/MessageAuth models infomesh/p2p/message_auth.py: SignedEnvelope, NonceCounter,
--   PeerKeyRegistry, NonceTracker, sign_envelope and verify_envelope. A call returns the tracker
--   beside its result, since the nonce is recorded before the signature is checked. trim is the
--   while loop of check_and_record, with one round of fuel per entry.
-- * P2p/Sybil models infomesh/p2p/sybil.py: the proof of work (generate_pow, verify_pow,
--   derive_node_id), SubnetLimiter with the entries that its defaultdicts gain on a read, and
--   SybilValidator. generate_from is the loop of generate_pow, with exactly the rounds that
--   max_nonce allows.
-- * P2p/Pex models infomesh/p2p/pex.py: PeerExchange with every method. Rate runs sequences of
--   requests and clean-ups; Exchange follows a response from the node that builds it to the one
--   that reads it.
-- * Trust/Dmca models infomesh/trust/dmca.py: its root has the data and the SQLite tables,
--   Manager the methods of TakedownManager, Wire the form that is sent. open_manager is the
--   constructor on an existing file; Restart runs calls and restarts in any order, with the order
--   in which SQLite returns rows left open.
-- * P2p/Throttle models infomesh/p2p/throttle.py: BandwidthBucket and BandwidthThrottle with
--   every method. One round of the loop of acquire is take_chunk; the clock is a list of delays,
--   by each of which a reading comes later than the moment that was asked for. Supply bounds how
--   many are needed; take_chunks has a round for each byte, which is enough.
-- * P2p/Dht models infomesh/p2p/dht.py, with PeerPointer and keyword_to_dht_key of
--   infomesh/p2p/protocol.py: the root has the data and _merge_pointers, Node the operations of
--   InfoMeshDHT. The read and the put of publish_keyword run on one state of the network, without
--   other nodes in between. acquire_crawl_lock is lock_held, up to its await, and put_lock; Locks
--   lets the coroutines of two nodes take these steps in any order.
-- * Index/Distributed models infomesh/index/distributed.py on top of P2p/Dht: extract_keywords,
--   and DistributedIndex with every method. The readings of the clock for a batch are a function
--   of the keyword. Index/StopWords is the list of stop words.
-- * Resources/Governor models the periodic check of infomesh/resources/governor.py and what
--   depends on it. Percentages are in tenths and the throttle factor in five-thousandths, where
--   the formula has no remainder; of a profile only the two fields that the check reads are kept.
-- * Security models infomesh/security.py: validate_url and validate_url_post_redirect with the
--   blocked names and networks. Webhooks puts it in the place of the parameter of Mcp/Session.
-- * P2p/LoadGuard models infomesh/p2p/load_guard.py: NodeLoadGuard with every method. Each
--   reading of the clock is an argument of its own, so try_acquire takes two. Log has the
--   histories of a guard as an indexed data type, beside the log of accepted queries that the
--   theorems compare the queue with.
-- * Crawler/Scheduler models infomesh/crawler/scheduler.py. add_url is admit, up to its await,
--   and enqueue; get_url is dequeue, up to its first sleep, and finish. Limits runs these steps
--   and the other calls in any order, which covers every interleaving of coroutines, and
--   cancelled ones, whose last steps are missing (Limits/Closed). The ValueError of urlparse is
--   left out: it leaves each method with nothing changed but what the pruning and the queue have
--   done before it.
-- * Crawler/SimHash models infomesh/crawler/simhash.py: simhash with its shingles and votes,
--   hamming_distance, and SimHashIndex. The weights are integers of Prelude/Int; the exclusive or
--   and its laws are in Prelude/Xor. ones and evict have as much fuel as the number has value and
--   the index has entries, and one round more (evict-eq).
-- * Crawler/Dedup models infomesh/crawler/dedup.py: normalize_url and DeduplicatorDB with its
--   table and, from Crawler/SimHash, its index of fingerprints. mark_seen returns beside the
--   state whether something raised; where urlparse does, nothing is written. Reload opens a table
--   again. The order of the rows is that in which SQLite returns them.
-- * Crawler/UrlAssigner models infomesh/crawler/url_assigner.py, with content_hash of
--   infomesh/hashing.py and CrawlAssignment of infomesh/p2p/protocol.py: UrlAssigner with every
--   method. A ValueError of int(text, 16) is none, and never occurs on digests.
-- * Search/QueryCache models infomesh/search/cache.py, with short_hash of infomesh/hashing.py:
--   QueryCache with every method. History runs sequences of calls, beside what was last put for
--   each key; Recency has the order of the keys.
-- * Mcp/Session models infomesh/mcp/session.py and the update of a session in
--   infomesh/mcp/handlers.py (remember): SessionStore, AnalyticsTracker and WebhookRegistry. The
--   session that get_or_create returns is the object in the dictionary, so remember writes it
--   back there. validate_url of infomesh/security.py is a parameter, which Security/Webhooks
--   fills.
--
-- A str is the list of the bytes of its UTF-8 encoding, a bytes object the list of its bytes.
-- Python's int is the native natural number where the code keeps it from being negative. A float
-- that is a time is a natural number: of seconds where the code adds a constant number of
-- seconds, and of a fixed small unit elsewhere, since the code only compares times and takes
-- differences; NaN and times before the origin are left out. A float that is a score is a natural
-- number of thousandths. Rates of the throttle are whole numbers of bytes per second, after the
-- conversion from Mbps. The clock is an argument. The lower-case form of a text is that of its
-- ASCII letters. Exceptions are the error side of a result.
--
-- Not under infomesh/, and so parameters with the laws that the code relies on: SHA-256
-- (Prelude.Hash.Sha256: a digest has 32 bytes), Ed25519 and the printing of timestamps
-- (P2p.MessageAuth.Signing: a signature verifies with its public key), the networks of addresses
-- (P2p.Sybil.IpAddress, without a law), MD5 and the words that a regular expression finds
-- (Crawler.SimHash.TextTools, without a law), the host name of a URL (Crawler.Scheduler.UrlParse,
-- without a law), the parts of a URL and of a query (Crawler.Dedup.UrlFormat, without a law), the
-- parser of URLs, the reader of addresses and the name resolution (Security.UrlTools, without a
-- law), the printing of floats (Trust.Dmca.Printing, without a law), libp2p's KadDHT
-- (P2p.Dht.Kad, without a law; Reliable states of it that a put that returns is found by a get),
-- the words of a text (Index.Distributed.WordFinder, without a law), the order of the rows of a
-- SELECT (Trust.Dmca.Scan: the rows that come back are the rows of the table), and a key pair
-- (Trust.Dmca.KeyPairLike, a value). Not modelled are logging, the command line, the dashboard,
-- the HTTP and MCP servers, the databases but for the tables named above, and the arithmetic of
-- credits and scores on floats.
pub mod Prelude
pub mod Trust
pub mod Crawler
pub mod P2p
pub mod Search
pub mod Mcp
pub mod Resources
pub mod Security
pub mod Index
