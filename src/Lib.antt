-- ===== src/Lib.antt =====
-- A verification library for the sponge TCP stack of this repository (libsponge): the byte
--   stream, the reassembler of out-of-order substrings, the sequence numbers, the receiver and
--   the sender that a TCP endpoint is built from, the connection and its states, and the choice
--   of a route in the IP router; and the bytes of segments, datagrams, ARP messages and frames,
--   with the network interface that sends and receives them.
--
-- How the parts interact. A ByteStream holds the bytes between a writer and a reader in a
--   BufferList. A StreamReassembler writes the bytes of a stream into one as they become
--   contiguous. The 32-bit sequence numbers of TCP segments stand for 64-bit indices, which wrap
--   and unwrap convert. A TcpReceiver gives the payloads of segments to its reassembler and keeps
--   the number to acknowledge; a TcpSender cuts its stream into segments and keeps those in
--   flight until they are acknowledged. Sender/Delivery ties the two together. A TcpConnection
--   owns a receiver and a sender: what arrives goes to the receiver, its acknowledgment to the
--   sender, and what the sender queues goes out with the receiver's acknowledgment and window. A
--   TcpState summarises the three. On the way to the wire, a segment is serialised under the
--   checksum of the IPv4 header, the datagram is put into an Ethernet frame, and a
--   NetworkInterface finds the Ethernet address of the next hop with ARP messages; what arrives
--   is parsed with a NetParser. An adapter carries segments over a device in this way. A router
--   passes the datagrams that its interfaces receive on to the interface that its table gives.
--
-- Prelude: shared names, Boolean tests, lists over the native numbers, and the wrapping sums of
--   machine words (add64 for size_t and uint64_t).
-- Wrapping: libsponge/wrapping_integers.cc. A WrappingInt32 is its raw value.
-- Buffer: libsponge/util/buffer.cc. Buffer and BufferList; a member that throws returns none.
--   Buffer/View is BufferViewList, a view being its bytes.
-- ByteStream: libsponge/byte_stream.cc, one function for each member. ByteStream/Spec is the log
--   that it refines.
-- Reassembler: libsponge/stream_reassembler.cc. push_substring is its for loop (store_bytes), its
--   while loop (drain) and what follows (finish). Reassembler/Closing is about the end of the
--   stream.
-- Segment: libsponge/tcp_helpers/tcp_header.hh and tcp_segment.cc, the fields and
--   length_in_sequence_space.
-- Receiver: libsponge/tcp_receiver.cc. Receiver/Invariant is about the bytes and Receiver/Follows
--   about the SYN and the FIN; Receiver/Reach has the states that a receiver comes to.
-- Sender: libsponge/tcp_sender.cc. fill_window is the SYN (send_syn), the loop (fill_loop, one
--   round send_data) and the lone FIN (send_fin); ack_received is update_window, the guards
--   (rejects), the loop (pop_acked) and fill_window. Sender/Flight has the accounts,
--   Sender/Window what fill_window sends, Sender/Ack acknowledgments, Sender/Timer the clock,
--   Sender/Reach the states that a sender comes to.
-- Connection: libsponge/tcp_connection.cc. segment_received is cut at its early returns into
--   accept, handshake and exchange; send_sender_segments is prepare_rst, move_segments and
--   clean_shutdown. Connection/Outgoing is about the queues, Connection/Abort about resets and
--   too many retransmissions, Connection/Life about the steps of a connection.
-- Router: libsponge/router.cc, the choice of the route in route_one_datagram: find_entry is its
--   loop, matches the test on the bits. What >> does not define, a shift by 32 or by a negative
--   number, is taken to fail the test. Router/Shift is about the bits, Router/Longest about the
--   loop.
-- Parser: libsponge/util/parser.cc. NetParser is a state monad that may throw; an integer is its
--   bytes. Parser/Reads has the rules for what is read back, Parser/Total those for what throws
--   nothing.
-- Checksum: libsponge/util/util.cc, InternetChecksum. Checksum/Fold is about the loop of value,
--   Checksum/Sum about add.
-- Segment/Wire: libsponge/tcp_helpers/tcp_header.cc and tcp_segment.cc, parse and serialize.
-- Ethernet, Arp, Ipv4: ethernet_header.cc and ethernet_frame.cc, arp_message.cc, ipv4_header.cc
--   and ipv4_datagram.cc of libsponge/tcp_helpers. parse takes what the object held before, since
--   an early return leaves it.
-- Table: std::unordered_map with a number as the key. Its order is the one in which the keys were
--   added.
-- Interface: libsponge/network_interface.cc. send_datagram is send_to, send_unknown and
--   push_frame; recv_frame is recv_ipv4, recv_arp, recv_message, learn and its loop flush; tick
--   is age and resend. Interface/Reach has the states that an interface comes to.
-- Adapter: libsponge/tcp_helpers/fd_adapter.cc, lossy_fd_adapter.hh, tcp_over_ip.cc and
--   tuntap_adapter.hh and .cc. What a device or a socket gives is an argument, what it is given a
--   result.
-- Network: libsponge/router.hh and .cc, the router with its interfaces and route().
-- Simulator: apps/network_simulator.cc, the exchange of frames and the hosts around the router
--   (Simulator/Hosts). Simulator/Arrives follows a datagram, Simulator/Hosts/Expected is about
--   the check of a host.
-- FileDescriptor: libsponge/util/file_descriptor.cc, read and write. The system calls are
--   parameters, on the state of the kernel.
-- EventLoop: libsponge/util/eventloop.cc. wait_next_event is setup, its first loop, and polls,
--   with its second loop dispatch. A world is passed from callback to callback.
--   EventLoop/Cooperative has the contract of the rules.
-- Socket: libsponge/tcp_helpers/tcp_sponge_socket.cc. read_datagram, read_outbound, write_inbound
--   and write_datagrams are the callbacks of the rules 1 to 4; tcp_loop, connect and
--   listen_and_accept are in Socket/Loop. DatagramAdapter is what the socket uses of its adapter,
--   Kernel the system calls on its pipe. Socket/Udp has a UDPSocket (libsponge/util/socket.cc)
--   and the adapter over it, Socket/Tun the adapter over a TUN device (tuntap_adapter.hh), and
--   Socket/Lossy the adapter with losses (lossy_fd_adapter.hh), each as a DatagramAdapter.
-- StreamCopy: apps/bidirectional_stream_copy.cc. fill and pour are what its callbacks share;
--   StreamCopy/Traffic is what comes through the three descriptors.
-- State: libsponge/tcp_helpers/tcp_state.cc; a summary string is a constructor.
--
-- Fuel. The while loop of push_substring takes as many rounds as there are unassembled bytes;
--   Reassembler/Drain shows that its test fails after them. The loop of fill_window takes at most
--   as many rounds as the stream has bytes; Sender/Loop shows that it ends by its own test. The
--   bitwise operations of the router are on 32 bits. The loop that folds a checksum takes two
--   rounds at most, as Checksum/Fold shows. The loop of tick over the pending requests is given a
--   fuel, and Interface/Tick shows for which times any fuel of twice their number is enough and
--   for which none is. The loop of FileDescriptor::write is given a fuel for its system calls,
--   and FileDescriptor/Whole shows that one more than there are bytes is enough; without
--   write_all there is one call, and the fuel is 1. The loops that wait for events are on the
--   list of what each round meets, and their results say whether they go on.
--
-- Parameters. fill_window reads the size of a std::string that it has moved from, which the
--   language leaves open: moved_size gives that size, and string_size says that it is below 2 ^
--   64 - 1. The initial sequence number of a sender is an argument, and so is the number that the
--   lossy adapter draws. reread is what an address becomes that is printed with inet_ntoa and
--   read again. The system calls on a file descriptor are functions on the state of a kernel,
--   what poll(2) reports and the clock are arguments, and so are the random bytes of the
--   simulator's addresses. The hypotheses Accepts and Gives say of writev(2) and read(2) what
--   their manual pages do; Works adds that they do not fail. Delivers says of recvfrom(2) and
--   sendmsg(2) that they do not fail and how long a datagram can be. The generator of the losses
--   is a function on its state.
--
-- Not modelled: the thread of the socket and its destructor, the wrappers of system calls (stream
--   sockets, addresses, devices), the applications but for the network simulator and the copying
--   of streams, and printing, which are input and output. Numbers are natural numbers and machine
--   sums wrap explicitly.
pub mod Prelude
pub mod Wrapping
pub mod Buffer
pub mod ByteStream
pub mod Reassembler
pub mod Segment
pub mod Receiver
pub mod Sender
pub mod Connection
pub mod State
pub mod Router
pub mod Parser
pub mod Checksum
pub mod Ethernet
pub mod Arp
pub mod Ipv4
pub mod Table
pub mod Interface
pub mod Adapter
pub mod Network
pub mod Simulator
pub mod FileDescriptor
pub mod EventLoop
pub mod Socket
pub mod StreamCopy
