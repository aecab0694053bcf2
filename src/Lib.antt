-- ===== src/Lib.antt =====
-- NATBuster: the parts of the program that decide what goes over the wire.
--
-- Blob (common/utils/blob.h, blob.cpp) is the byte buffer of all other parts: a window into an
-- allocation, with gaps at both ends that grow. `Blob.antt` has the record and `grow_gap`,
-- `Blob/Edit.antt` the operations that change it, `Blob/Factory.antt` the factories,
-- `Blob/Order.antt` the comparisons, `Blob/Packed.antt` the const slices and the packed
-- records (PackedBlobWriter, PackedBlobReader), in which the other parts put their messages. A
-- `ConstBlobView` argument is the list of the bytes that it shows. Utils/Math
-- (common/utils/math.h) has the clamped arithmetic. An assertion that fails, an exception and
-- an access outside a buffer are `none`.
--
-- Crypto/Cipher (common/crypto/cipher.h, cipher.cpp) numbers the packets of a session and
-- gives the number to AES-256-GCM as part of the nonce. OpenSSL is a parameter, `Gcm`, with
-- the laws that it documents, `GcmLaws`.
--
-- Proto/Kex (common/transport/kex.h, kex_v1.h, kex_v1.cpp) is the key exchange: `Client.antt`
-- has KEXV1_A and `Server.antt` KEXV1_B, a function for each case of their `recv`. Keys,
-- signatures and hashes (common/crypto/pkey.h, hash.h) and the trusted users
-- (common/identity/identity.h) are in `Proto/Keys.antt`; the random generator is an argument
-- of `recv`. The loop of `secret_hash_derive_bits` runs on fuel 2: one round is enough for the
-- 32 and 12 bytes it is asked for.
--
-- Transport/Session (common/transport/opt_session.h, opt_session.cpp) encrypts packets and
-- drives the key exchange; `Transport/Link.antt` is the part of its state that the key
-- exchange works on.
--
-- `Transport/Session/Connect.antt` connects two sessions and hands to each what the other
-- sends; `Proto/Kex/Exchange.antt` has the states and the messages of that exchange, for keys
-- that work (`Proto/Kex/Working.antt`, which states what OpenSSL documents).
--
-- Transport/Tcp (common/transport/opt_tcp.h, opt_tcp.cpp) cuts the byte stream of a socket
-- into packets. The calls of its callbacks and of `close` are the events that an operation
-- returns.
--
-- Transport/Udp (common/transport/opt_udp.h, opt_udp.cpp) sends packets in numbered frames.
-- `Udp.antt` has the state and the receiving side, `Send.antt` the sending side and the
-- timers. The running averages of the ping are floats and a parameter, `Estimator`; the clock
-- stands still during a call. `Frames.antt` says what a stream of frames means to a channel
-- that is reliable and ordered, against which the receiver is proved. The loop of
-- `try_reassemble` takes a frame off the map in each round, that of `on_retransmit_timer`
-- sends each frame of the queue again once at most, and that of `send` takes a byte at least,
-- so the fuel of each is a length and one.
--
-- Transport/Pipes (common/transport/opt_pipes.h, opt_pipes.cpp) runs many pipes over one
-- connection. `Pipes.antt` has the methods of OPTPipe and OPTPipes, `Recv.antt` the callbacks
-- for what comes from below. The map of pipes holds weak references, so the pipe objects are a
-- store of their own, and the destructor is an operation; a `std::map` is an association list
-- (`Prelude/Assoc.antt`).
--
-- Punch (common/punch/punch.h, punch.cpp) is the negotiation of a hole punching over a pipe, a
-- function for each state of `on_packet`; `Punch/Ports.antt` has the ports of
-- common/punch/sym_sym.cpp.
--
-- Endpoint (common/endpoint) has, in `Connections.antt`, the table of the clients that are
-- logged in at the command and control server (c2_server.h, c2_server.cpp), with the
-- connections as references, and in `Router.antt` the authorisation of a port (router.cpp,
-- common/identity/identity.h).
--
-- `Routes.antt` there has the relays of router.cpp and c2_server.cpp, `Client.antt` what a
-- client answers to a pipe (c2_client.cpp), `IpQuery.antt` the query for one's own address
-- (ip_server.cpp, ip_client.cpp).
--
-- Network/Multiplexer (common/network/network.cpp) shares one UDP socket among remote
-- addresses.
--
-- Utils/Callback (common/utils/callbacks.h) is the atomic pointer to a callback: each
-- operation is cut at its atomic accesses, and a run is any sequence of these, so that calls
-- of any number of threads overlap in any way. Utils/Event (common/utils/event.h) has the
-- timers of the event loop and one pass of it; what the callbacks do to the timers is a
-- parameter, and so is the clock. Utils/Hex is common/utils/hex.cpp.
--
-- Config writes settings and users as JSON and reads them: `Users.antt`
-- (common/identity/identity.cpp) and `Profile.antt` (common/config/config.cpp). jsoncpp is a
-- parameter, `Json`, with the laws that it documents, `JsonLaws`; an exception and an
-- assertion that fails are `thrown`.
--
-- Words of 32 bits are natural numbers with the wrap-around written out (`add32`, `sub32`).
-- Loops over lists are structural; the loop of `on_receive` runs on fuel, one more than the
-- bytes that are there, and every round that goes on takes five of them at least.
--
-- Not modelled: the sockets of the operating system, OpenSSL and the JSON library, which the
-- program calls; locks, since each call is a step on its own; deallocation.
pub mod Prelude
pub mod Utils
pub mod Blob
pub mod Crypto
pub mod Proto
pub mod Transport
pub mod Punch
pub mod Network
pub mod Endpoint
pub mod Config
