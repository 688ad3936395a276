-- ===== src/Lib.antt =====
-- The Mumble client library (lib/mumble).
--
-- The client talks to a server over two channels. Control messages are protobuf messages in frames
-- over TLS; voice and pings are datagrams that OCB2-AES encrypts, and while no ping has been answered
-- voice goes through the stream as frames, too. Voice is Opus, framed into packets with a source and
-- a sequence number. Underneath lie variable-length integers, a pool of equal buffers, and a buffer
-- that cuts a stream into frames of one size.
--
--   Prelude     names, lists, outcomes of C functions, words, memory; Bits: the bit operations
--   Varint      lib/mumble/util.c: varint_encode_size, varint_encode, varint_decode;
--               Varint/Words: its words of four and eight bytes
--   BufferPool  lib/mumble/util/buffer_pool.c: buffer_pool_init, _acquire, _release, _free;
--               BufferPool/Swap, BufferPool/Release: the release
--   Buffer      lib/mumble/buffer.c: mumble_buffer_create, _write, _flush
--   Frame       lib/mumble/common.h and the struct of both frame files; Frame/Types: the type
--               numbers; Frame/Encoder: lib/mumble/frame_encoder.c; Frame/Decoder:
--               lib/mumble/frame_decoder.c; Frame/Stream: both ends, as a queue
--   UdpPing     lib/mumble/udp_ping.c: its functions, and the two timer callbacks
--   Ocb         lib/mumble/ocb_aes.c: operations on blocks; Ocb/Shift: left_shift; Ocb/Two: OCB2;
--               Ocb/Two/Memory: its decryption with any length;
--               Ocb/Three: OCB3; Ocb/Three/Log: ntz; Ocb/Three/Encrypt, over
--               Ocb/Three/Types: the sizes of what OCB3 writes; Ocb/Three/Reveal: its output read back
--   UdpSsl      lib/mumble/uv_udp_ssl.c, over BufferPool and Ocb; UdpSsl/Keys: its keys;
--               UdpSsl/Valid: what holds before and after a call
--   TcpSsl      lib/mumble/uv_tcp_ssl.c: its reading loop and its callbacks, over BufferPool;
--               TcpSsl/Setup: its set-up; TcpSsl/Events: the handshake, and bytes that arrive
--   Opus        lib/mumble/codec/opus.c, over Buffer and Varint
--   AudioEncoder, AudioDecoder
--               lib/mumble/audio_encoder.c and lib/mumble/audio_decoder.c, over Opus and Varint;
--               AudioDecoder/Sequence: the sequence numbers; AudioDecoder/Fields, AudioDecoder/Packets:
--               packets read back
--   Audio       lib/mumble/audio.c: the two above with UdpPing, UdpSsl and TcpSsl; Audio/Voice: a frame
--               of voice as it is sent; Audio/Voice/Heard: as it is heard; Audio/Voice/Relay: from
--               one client over a server to another
--   Client      lib/mumble/mumble_client.c, over Frame and Audio, with dupstr of lib/mumble/util.c;
--               Client/Partial, Client/Pump: frames that come in; Client/Tunnel: voice that comes
--               through the stream; Client/Writes: what goes out; Client/Connect: the port
--               as text; Client/Valid: what holds before and after a call; Client/States: the client under every
--               order of the events of libuv and the calls of the program
--   Demo        src/main.c, over Client: main, its tone, and what it does on a message and on voice;
--               Demo/Run: main in the loop of libuv
--   Fixtures    the concrete libraries that the runs in the modules named Tests use
--
-- A struct is a record, and a function that changes it takes the record and returns the new one in an
-- outcome: done, a failed assertion or abort, an access out of range, or a call that has not returned
-- within its fuel. Memory is the list of its bytes. An unsigned keeps its wrap-around; an int is an
-- integer, or its bit pattern where it is compared with an unsigned. A pointer to a buffer of a pool
-- is a number. A callback of the user is recorded as an event, or, where the library itself is the
-- user, is a function on the state of its own that the caller passes in.
--
-- Fuel stands where the source calls itself: varint_decode, which calls itself on the same bytes, and
-- the calls between mumble_buffer_write and mumble_buffer_flush; one call is enough wherever these
-- return. The loop of uv_ssl_read has fuel, which must exceed what OpenSSL has left to read, and that
-- of mumble_message_cb_adapter, which must exceed the number of frames that are held. The other loops
-- have their bound as an argument, which the callers give: the length of a list, or the number of
-- rounds.
--
-- Parameters with named laws: malloc for the pool (Malloc, NeverTwice) and for all else (Blocks,
-- which returns a block of the size asked for), protobuf-c with the code generated from Mumble.proto
-- (Protobuf, IsProtobuf; Messages, IsMessages for the messages that the client makes or reads), AES (Aes, IsAes),
-- libopus (LibOpus, IsOpus), SSL_read (Ssl, Drains), the rest of OpenSSL (Engine, IsEngine), the
-- callbacks of the client (ReadCallback, IsTidy, ConnectCallback, IsTidyConnect), what the set-up is
-- told (Made, Lookup), the product of floats that gives the bytes of an Opus frame, and the results
-- of uv_udp_try_send, uv_try_write, BIO_write and SSL_write (Network). The timers of libuv are a step
-- relation: in UdpPing/States a timer calls back only while it runs, in Client/States at any time.
-- What a client needs to be set up with is IsFit: malloc, the pool's and the size of a frame of
-- voice. The server between two clients, which puts the source behind the first byte of a packet, as
-- the protocol says, is a function of the statement (relayed).
--
-- Not modelled: mumble_buffer_free, mumble_uv_ssl_close, _free, _set_data and _set_cb, which are a
-- call or an assignment each; the contents of a certificate, logging, and the vendored libraries of
-- 3rdparty.
pub mod Prelude
pub mod Bits
pub mod Varint
pub mod BufferPool
pub mod Buffer
pub mod Frame
pub mod UdpPing
pub mod Ocb
pub mod UdpSsl
pub mod TcpSsl
pub mod Opus
pub mod AudioEncoder
pub mod AudioDecoder
pub mod Audio
pub mod Client
pub mod Demo
pub mod Fixtures
