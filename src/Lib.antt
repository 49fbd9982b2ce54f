-- ===== src/Lib.antt =====
-- rushkit: an RTMP library in C, with its core (values, a pool, buffers, channels, packets and a
-- connection), its Python bindings and its example server.
--
-- core/src/utils.c puts words into network byte order. core/src/rt_pool.c hands out memory from
-- trunks that are given back all at once. core/src/buffer.c reads a block of input, writes a growing
-- block from a pool, and collects a packet of known size. core/src/amf.c packs and unpacks AMF values
-- on top of these. core/src/packet.c cuts a packet into chunks, and takes one together from them, with
-- a state machine and 64 channels for each direction. core/src/protocol.c drives the handshake, feeds
-- the packets to the callbacks of a method table, and answers calls. bindings/python is a host of it
-- whose callbacks are methods of a Python object; aux is a host that keeps one connection for each
-- client of a server, in a map by number, and answers the call "add".
--
-- Base             tests on numbers, lists of bytes, the text of numbers, the outcome of a run
-- Word             core/src/utils.c; Word.Wire and Word.Pack the laws of the byte order
-- Trace            core/src/utils.c: trace_buffer and trace_str; Laws: when the text fits its buffer
-- Amf              the values of core/src/amf.c (AV, AK_ARRAY, AK_TABLE, AK_STRING)
-- Amf.Encode       amf_pack, amf_get_pack_size, amf_pack_arguments, amf_pack_call
-- Amf.Decode       amf_unpack; Consume: where it ends and what it takes; RoundTrip: packed values
-- Amf.Pickler      amf_ap_read_next, amf_ap_read_arguments, amf_ap_read_array, the constructors
-- Amf.Print        amf_print, as the text that it prints
-- Pool             core/src/rt_pool.c; Blocks: what is handed out; Accounts: the counters
-- Buffer           core/src/buffer.c: ReadBuffer, WriteBuffer and FixBuffer, each with its Laws
-- Session          CHANNEL, PACKET and RTMP_PROTO of include/rushkit.h, the operations on channels
-- Packet.Header    the steps of rtmp_packet_get_packet of core/src/packet.c up to a packet's header
-- Packet.Receive   its other steps and the loop; the laws in its child modules
-- Packet.Send      rtmp_packet_write_packet; Packet.Wire is the layout that it writes
-- Packet.Send.Masks, Receive.Masks  headers that are shortened against the last packet of a channel
-- Packet.Receive.Moves, Ends, Rounds  the states that a round leads to, and the rounds that are enough
-- Packet.Delivery, InStep  sending and receiving together, on a new channel and on one in use
-- Protocol         core/src/protocol.c: the method table and the handshake
-- Protocol.Send    rtmp_proto_send_packet, rtmp_proto_call, rtmp_proto_packet_return
-- Protocol.Handlers  the default callbacks and the dispatch on a packet's type
-- Protocol.Feed    rtmp_proto_feed, rtmp_proto_feed_data
-- Protocol.Lifetime  rtmp_proto_init, rtmp_proto_free and the host's pointer
-- Protocol.Handshake, Greeting, Gathering  the handshake, fed at once and in pieces
-- Protocol.Opening  from rtmp_proto_init over the handshake to the first packets
-- Protocol.InOrder, Invoke, Outside, Refed  packets fed, calls handled, what is sent between packets,
--                  and what rtmp_proto_feed_data reads
-- Protocol.Conversation  packets with shortened headers, sent one after the other and fed at once
-- Protocol.Reply, Connect  an answer that is sent, and the answer to "connect"
-- Server           aux/connection.cpp and on_accept, on_rtmp_read of aux/main.cpp; Map: std::map
-- Server.Accept, Events, Receiving  what the handlers do to a connection and with its bytes
-- Server.Registry, Reachable  the map of connections over any sequence of events
-- Server.Calls     the server's callbacks
-- Python           bindings/python/py_amf.c over a record of Python's C interface
-- Python.Convert, Nesting  what the conversions keep, and that they end
-- Python.Responder bindings/python/pyrushkit.c
-- Examples         runs on concrete inputs
--
-- A byte is a number below 256, and a C int, short, long or double its 32-, 16- or 64-bit pattern. A
-- routine that uses assert or reads through a pointer returns an Outcome: `abort` is a failed assert,
-- `fault` a read outside the memory that is there or a free of memory that is not malloc's, and
-- `out_of_fuel` a loop that goes on beyond its fuel. A pointer into a buffer is the bytes from there
-- on. The byte order of the machine is the argument `small`, and the global `system_is_small_endian` is
-- taken to hold it, as it does after probe_small_endian and on a little-endian machine from the start. The
-- sizes of chunks, which the code sets to 128 only, are taken not to be negative. The length of a list is
-- that of memory, and is an int without overflow where a routine passes it as one, except in the sizes of
-- the packed values, in amf_pack_arguments, in amf_pack_call and in the growth of a write buffer, where it
-- wraps around. The four blocks of a connection are NULL, live or dangling, in `memory`. The host's
-- callbacks are functions in a MethodTable; what the connection tells the host stands in `events`.
-- The clock, the conversions between a long and a double and what malloc's memory holds are arguments;
-- so are the system's `read` and `write`, the sum of two doubles, `%f`, and Python's C interface, whose
-- rules are the record Python.Convert.IsLawful. A C++ object has an address, and a server is the map of
-- numbers to addresses with the objects at the addresses.
--
-- Fuel: amf_unpack gets one more than the number of bytes, since each nested call takes one, and so do
-- the loops that read values. The doubling of a write buffer gets the size that is needed. The loop
-- that sends chunks gets the size of the payload, which is enough with chunks of at least one byte, and
-- the one that reads them one more than the bytes that are left, since each round takes a header. The
-- loop of rtmp_packet_get_packet gets 7 rounds, one for each state, and that of rtmp_proto_feed one
-- round for each byte, since a round takes one in every state that there is. The conversion of a Python object
-- gets fuel for its nesting.
--
-- Not modelled: the default on_log, which only prints; of aux/main.cpp the set-up of sockets and of the
-- event loop; statBandWidth, which has no definition; bindings/rushkit.i, which is input for SWIG. ALLOC,
-- ALLOCZ and RELEASE are malloc, calloc and free, and `malloc` is taken to succeed. Not tracked: that the
-- memory a routine reads may be overwritten meanwhile, the pool memory that AMF values take, with the
-- wrap-around of the size of a very large array in unpacking and of the counts that amf_unpack and
-- amf_pack return, and the reference counts of Python objects other than a connection's host.
pub mod Base
pub mod Word
pub mod Trace
pub mod Amf
pub mod Pool
pub mod Buffer
pub mod Session
pub mod Packet
pub mod Protocol
pub mod Server
pub mod Python
pub mod Examples
