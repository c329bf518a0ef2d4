-- ===== src/Lib.antt =====
-- Ditto: the sniffer that takes the chunks of overheard transfers out of TCP streams. This library
-- models src/sniffer: a frame comes from pcap, its TCP segment goes to the chunks and the blocks of
-- its flow, and a chunk that is complete goes to the sniffer plugin of gtcd by RPC. Several flows can
-- carry one chunk, and each of them fills gaps that the others leave. It also models the daemon,
-- src/gtcd: how it reads its configuration and builds its plugins, how it serves its clients the data
-- of an object chunk by chunk, and how its transfer plugin gets chunks from other daemons.
--
-- The parts, from the bottom, with the files of the repository and what is modelled of them:
-- - Block (src/sniffer/contiguous_block.{h,cc}): ContiguousBlock, a run of bytes with the sequence
--   numbers of its start and its end. append, append_string, overlapping_append and prepend are the
--   operations, assign, equal and less the operators. A buffer is a list; a block that is deleted is
--   one that is no longer in a list.
-- - Chunk (src/sniffer/reconstructed_chunk.{h,cc}): ReconstructedChunk, whose blocks count from the
--   start of the chunk. place is the loop of ReconstructedChunk::fill_gaps_in_chunk over the blocks,
--   with before, inside and absorb for its branches. The specification is a function from positions
--   to bytes: Chain and IsChunk say that the blocks hold its bytes in order and apart, and covered is
--   the set of positions that they hold.
-- - Wire (src/sniffer/SniffTcp.cc): rpc_header_in_stream, extract_chunk_response and getChunkId
--   (get_chunk_id), on the memory that a pointer points into. response, in Wire/Response, writes a
--   response independently of the code that reads it.
-- - FlowId (src/sniffer/flow_id.{h,cc}): the addresses and ports of a flow, and the text that the
--   dictionaries are keyed by.
-- - Flows (src/sniffer/SniffTcp.cc): p_flow_list with get_flow_offset and insert.
-- - Sniffer (src/sniffer/SniffTcp.{h,cc}): the state SniffTcp; fill_gaps_in_chunk, which cuts a packet
--   at the end of its chunk, and send_chunk_to_sniffer_plugin. Sniffer/Dispatch has
--   deal_with_pkt_without_chunkid, deal_with_candidates_for_chunk and the two branches of handle_ip
--   for a flow that is new or old. Sniffer/Capture has handle_ethernet, my_callback_ethernet and the
--   tests of handle_ip.
--   Sniffer/Grep has one search of a stored block, grep_contiguous_block_for_chunks, and Grep/Flows
--   the loops of grep_flows_for_chunks.
-- - Wifi (src/sniffer/SniffTcp.cc, with the macros of ieee802_11.h and extract.h): handle_80211,
--   handle_data_frame and handle_llc, which print what a frame holds; here that is their result.
-- - Xfer (src/gtcd/xfer/xferPlugin_gtc.{h,cc}): what two daemons send each other. Chunk has GET_CHUNK:
--   remote_get_chunk, remote_get_chunk_cb, proxy_get_chunk_cb and get_chunk_internal_cb, and
--   Chunk/Fetch the loop of the two ends. Bitmap has convert_from_bitvec and convert_to_bitvec, and
--   Bitmap/Paging GET_BITMAP; Descriptors has GET_DESCRIPTORS. Connections has the client's state
--   (connCache, pendingConnCache, refcount, wait_cb) with get_chunk, get_connection,
--   establish_connection, check_outstanding, int_reap_conn_entries and the callbacks,
--   Connections/Other what get_bitmap and get_descriptors do with the connections, and
--   Connections/Reached the steps of all of them. Routing has
--   setup_routing_info and get_next_hop, and Hint has parse_hint and make_hint (src/gtcd/gtcd.T); the
--   transfers take any reader of hints, as a parameter.
-- - Config (src/gtcd/configfile.cc): parse_config and the parsers of the routing table and of the
--   sniffer section, on the lines of words that the tokenizer gives.
-- - SnifferPlugin (src/gtcd/sniffer/snifferPlugin_tcp.cc): put_chunk, dispatch and
--   setup_sniffer_info, the daemon's end of the calls that a sniffer makes.
-- - Gtcd (src/gtcd/gtcd.T, src/gtcd/gtcd.h): the daemon's end of its clients. Gtcd has XferData and the
--   serving of its data, transfer_data, get_chunk_cb and actual_transfer_data; Gtcd/Fetch get_data,
--   fetch_data and xp_fetch_data_cb; Gtcd/Table the table with get_init, get_init_cb, put_init, put_data
--   and put_commit; Gtcd/PutFd put_fd and its callbacks. Gtcd/Run puts a transfer among its client, the
--   timer and the plugins, as events in any order.
-- - Start (src/gtcd/main.cc): instantiate_plugins, which makes the chains of plugins that the two
--   lists of Config name.
-- - Prelude: the shared names, machine words, bits, byte strings and dictionaries, and the steps that
--   can fault. Tests: every theorem below at a concrete input.
--
-- Numbers: tcp_seq and unsigned int wrap at 2 ^ 32, the byte counters at 2 ^ 64, and the wrap is
-- written out; an unsigned difference that the source takes for an int is one below 2 ^ 31. A step
-- that can fault is an Option, where `none` is a read or write outside the memory. The loops recurse
-- on the list that they go over, and the digits of a 32-bit number in FlowId are at most ten. The
-- loops of Xfer between client and server recurse on fuel, a unit for each request; each theorem
-- about one gives the fuel that is enough, since every page has a byte, a bit or a descriptor. So does
-- the loop over the searches of a block in Sniffer/Grep/Flows, since a search shortens the block. The
-- fuel of Gtcd/Ends is a unit for each step of the client, the timer or storage, and two for each byte
-- and each chunk, and two more, are enough.
-- The offsets of Gtcd are an int of 32 bits and a long of 64, and wrap around.
--
-- Not modelled: printing, timers and pcap set-up; inet_ntoa, of the C library, is a parameter of
-- Sniffer/Capture, and the bytes of a string object are one of Sniffer/Grep. The text helpers, the
-- frame check (a copy of another project's routine, a parameter of Wifi), SniffTcpv2.cc and src/ideal-sniffer (copies),
-- and the process set-up of gtcd are not modelled. The RPC layer, the storage plugins, the digest
-- and the tokenizer of gtcd are other libraries: what is used of them is a parameter, and a call comes
-- back with a reply or a failure. Offsets and counts of a message are not cut to a width, except for
-- those of a bitmap, which the packing takes for an unsigned int and an int. The sniffer's calls of
-- the plugin are recorded in the state (put_chunks). In Sniffer, a packet whose part behind the chunk
-- is larger than the packet, and a candidate block whose part behind the chunk changes the blocks that
-- the loop of deal_with_candidates_for_chunk goes over, end in a fault, although the code can go on in
-- some of these cases.
pub mod Prelude
pub mod Block
pub mod Chunk
pub mod Wire
pub mod FlowId
pub mod Flows
pub mod Sniffer
pub mod Wifi
pub mod Config
pub mod Gtcd
pub mod SnifferPlugin
pub mod Start
pub mod Xfer
pub mod Tests
