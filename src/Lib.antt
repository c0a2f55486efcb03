-- ===== src/Lib.antt =====
-- Verification of the video streaming proof of concept over L4S: H.264 units go over QUIC
-- (cmd/quic-send, cmd/quic-recv) or WebRTC, with ECN marks at the packet level and a side channel of
-- reports from the receiver to the sender.
--
-- The parts, and the files that model them:
-- - Base and its children: tests, lists, integers, machine words over the native numbers.
-- - Io: readers of the Go standard library and io.ReadFull, modelled by their documentation. A
--   source is the list of what its reads give, bytes and errors; at its end it answers io.EOF.
-- - Nal, AnnexB, Frame: pkg/h264/annexb.go. `AnnexB.read_nal` is AnnexBReader.ReadNAL (`scan` its
--   loop, `scan_byte` the loop's body, `flush` the code after it), `AnnexB.write_nal`
--   AnnexBWriter.WriteNAL; `Frame.read_nal` and `Frame.write_nal` are the length-prefixed pair.
-- - Rtp: pkg/h264/rtp.go, RTPPacketizer and RTPDepacketizer; pion's codecs are parameters.
-- - Ecn, Interceptor: pkg/l4s/interceptor.go. Trackers are shared through pointers: they stand in a
--   heap, and the map and the bound readers hold indices into it.
-- - Scream: pkg/scream/scream.go over the record `Api` of the functions of the C library; senders are
--   indices into the list of those made.
-- - Store: Go maps and the objects that their values point to, for Interceptor and Scream.
-- - EcnConn: pkg/ecnconn/conn.go over the record `Sockets` of what the Go library offers;
--   `EcnConn.Marking.Kernel` states what a dual-stack socket does with its two options for marks. `EcnConn.Race` cuts
--   WriteMsgUDP at the points where its lock is not held.
-- - Picoquic: pkg/picoquic/picoquic.go over the record `Api` of the functions of the C wrapper.
-- - Wrapper: what pkg/picoquic/picoquic_wrapper.c keeps itself, the receive buffer of stream 0 and the
--   loop of pq_wait_stream_complete, over the calls in the order that its locks give, and in
--   `Wrapper.Sending` the linked list of the send queue and in `Wrapper.Datagrams` the datagram slot.
-- - SideChannel: the handlers of the receiver's reports in cmd/quic-send/main.go and
--   cmd/webrtc-send/main.go.
-- - Floats: float64 as a parameter with its operations, and the rates and averages over it.
-- - Report: the goroutines of cmd/quic-recv/main.go and cmd/webrtc-recv/main.go that report the
--   bandwidth; `Report.Delivery.Delivers` is a network that loses datagrams and keeps their order.
-- - Summary: the summaries of cmd/quic-send/main.go; cmd/webrtc-send/main.go has the same code.
-- - Session and its children: cmd/quic-bench/main.go, cmd/quic-test/main.go, and how
--   cmd/quic-send/main.go and cmd/quic-recv/main.go begin and end, over the record of Picoquic; parts
--   of a program are chained by `>>=`, with log.Fatalf as an exit. `Session.Protocol` is the protocol
--   of picoquic_wrapper.h, as a monitor around any C side; the goroutine of quic-send that receives
--   datagrams has its calls between those of the main goroutine, and after them.
-- - Quicl4s: pkg/quicl4s/quicl4s.go over the record `Api` of what it calls of quic-go and crypto.
-- - Webrtc: the sending loop of cmd/webrtc-send/main.go and the track handler of
--   cmd/webrtc-recv/main.go; `Webrtc.Reassembly.Codec` states what pion's codecs do for each other.
--   `Webrtc.States` has the channels and state handlers of the sender, over the events in their order;
--   `Webrtc.Whip` the WHIP endpoint over the record `Pion` of what it calls; `Webrtc.Offer` the set-up
--   of the sender over `Offerer`, `Webrtc.Offer.Join` that with the endpoint behind its post,
--   and `Webrtc.Program` the sender from the set-up to the summary.
-- - QuicSend, QuicRecv: the loops of cmd/quic-send/main.go and cmd/quic-recv/main.go, and Pipeline:
--   the two joined, the bytes that the sender writes being what the receiver reads.
--
-- Child modules hold the theorems, and in each part `Tests` holds runs on concrete data.
--
-- Conventions: integers of the code that are never negative are native numbers, with `% 2 ^ w` where a
-- w-bit value wraps; an int64 is an integer wrapped by `i64`. Errors are values. A writer is its `Write`
-- function, which gives an error or none and the writer's new state. Loops over a reader take fuel:
-- each call that does not end the loop takes a byte or an error off the source, or its end, so that the
-- source's length and two are enough; the receiving loop needs one round for each frame and one more.
-- Logging, time and the verbose output are left out.
--
-- Not modelled: the set-up and the packet loop of picoquic_wrapper.c; the RTCP reader of
-- cmd/webrtc-send/main.go, which only logs; command line flags, but for where a set-up passes them on,
-- and signals, but for where they end a loop or a wait.
pub mod Base
pub mod Io
pub mod Store
pub mod Nal
pub mod AnnexB
pub mod Frame
pub mod SideChannel
pub mod Rtp
pub mod Ecn
pub mod Interceptor
pub mod EcnConn
pub mod Floats
pub mod Report
pub mod Summary
pub mod Picoquic
pub mod Wrapper
pub mod Scream
pub mod Session
pub mod Quicl4s
pub mod QuicSend
pub mod QuicRecv
pub mod Pipeline
pub mod Webrtc
