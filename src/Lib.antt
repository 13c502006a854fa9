-- ===== src/Lib.antt =====
-- easybd: a network block device. A client library pipelines read and write requests over one TCP
-- connection, a server serves each connection from a backing file, and both stand on easyio, a small
-- coroutine runtime with an io_uring and a poll backend.
--
-- How the parts interact: a backend's recv stream hands out chunks of received bytes; `FramedReader`
-- turns chunks into messages of exact length; the server's `handle_connection` reads requests with it
-- and spawns a handler for each; the client's `reader_loop` reads responses with it and matches them
-- to requests in flight by their cid.
--
-- Which file models what:
--   Base            shared names, lists over the native numbers, Boolean tests, signed integers
--   Stream          easyio/include/easyio/recv_stream.hpp: chunks, and what a stream promises its reader
--   Task            easyio/include/easyio/task.hpp: a task's promise, awaiter and final suspension,
--                   and `spawn` in Task.Detached
--   Owning          the same file and server/aligned_buffer.hpp: who owns a frame, or a block
--   Reader          easyio/src/framed_reader.cpp: `read_exact`, `read_exact_into`
--   LibcStream      easyio/src/libc_recv_stream.cpp: `RecvStreamImpl` of the poll backend
--   UringStream     easyio/src/uring_recv_stream.cpp: `RecvSink` and `RecvStreamImpl` (multishot)
--   SingleShot      the same file: `SingleShotRecvSink` and `SingleShotRecvStreamImpl`
--   UringSink       the same file: who deletes a sink
--   UringBuffers    the same file: the memory of the sinks, and the ring of buffers that is laid out in it
--   System          easyio/src/queue.cpp: the helpers on descriptors, and the choice of a backend
--   UringQueue      easyio/src/uring_queue.cpp: the operations as submission entries, and `step`
--   LibcQueue       easyio/src/libc_queue.cpp: the table of waiting operations and `step`, with the
--                   operations in LibcQueue.Operations and the destructor in LibcQueue.Destructor
--   Sending         easyio/src/queue.cpp: `send_all`, over the sends of easyio/src/libc_queue.cpp
--   Mutex           easyio/include/easyio/mutex.hpp
--   Turns           the same file: `lock_guard` and `MutexGuard` around `send_all`, by many coroutines
--   WaitGroup       easyio/include/easyio/wait_group.hpp
--   Wire            include/easybd/protocol.h: the headers and their bytes
--   Session         server/session.cpp: `handle_connection` and its handlers; Session.Serving runs the
--                   handlers in any interleaving
--   Server          server/server.cpp: the descriptors, the accept loop and the threads
--   Client          client/client.cpp: `Client`, once it is connected, its events in Client.Steps and, with
--                   those that come while an answer's body is read, in Client.Suspended, and its end in
--                   Client.Destroy
--   Capi            client/client.cpp and client/capi.cpp: the connecting, `wait`, and the C interface,
--                   with the requests in Capi.Requests
--   Cli             server/main.cpp: the options, and the configuration that `run_server` gets
--   EndToEnd        client and server together; EndToEnd.System has the whole way of a request
--
-- State and operations. An object is a record of its fields, and a method a function from the old
-- record to the new one, with its result beside it. A coroutine that waits is part of the call that
-- waits: `next_batch` of each stream goes on with the poll loop, or with the completions, until the waiter is
-- resumed. The recv stream
-- is the record `RecvStream` of operations and laws; Reader, Session and Client take it as a section
-- parameter, and each of the three streams fills it: `LibcStream.Contract.libc_stream`,
-- `UringStream.Contract.uring_stream` and `SingleShot.Contract.single_shot_stream`. Exceptions are the
-- values of `Thrown`. A thread of the server is the place where it is between two accesses to what the
-- threads share, and `Server.Interleaving.Step` lets them take turns in any order. The handlers of one
-- connection go on in any order by `Session.Serving.Step`: each does its I/O, waits for the lock, sends
-- its response in as many pieces as the socket takes, and leaves the wait group.
--
-- Numbers are unbounded; the widths of the wire's fields are conditions where bytes are written, the
-- client's `_next_cid` wraps at 2 ^ 64, and a step of the client assumes that it has not yet done so.
--
-- Fuel. A read asks for n bytes and every batch brings one at least, so n + 1 rounds are enough; a
-- connection reads a header for each request, so more rounds than bytes are enough; a reader waits at
-- most once for each answer of its socket; `send_all` writes a byte at least with every call, so one
-- round more than there are bytes is enough. A reader of the multishot stream waits with every buffer
-- in the ring, so each completion uses up an event, and one round more than there are events is enough.
-- The write loop of the libc queue's dispatch may go on for ever, and its fuel bounds how far the model
-- follows it.
--
-- Parameters. recv(2) and send(2) are lists of their answers, and that of recv(2) ends; `on_ready`
-- and `cancel` of a waiting operation, with the coroutines that they resume, are functions on the
-- queue's table, except where the waiting coroutines are modelled themselves; the io_uring recvs are
-- sequences of the completions that io_uring_prep_recv_multishot(3) and io_uring_prep_recv(3)
-- document; the backing file is a record of operations. What liburing and the system's calls return
-- is an argument of the operation that makes them. So is what memory there is for the payload of a
-- write. A wait of `step` with a timeout returns, so every turn of a server's thread does.
--
-- Not modelled: the destructor of the io_uring queue, which drops what liburing has completed, and
-- `~Client` on that backend, which resumes nothing; memory that runs out for a coroutine's frame, but for
-- those of a client's send and of its `reader_loop`; scripts and tests.
pub mod Base
pub mod Capi
pub mod Cli
pub mod Client
pub mod EndToEnd
pub mod LibcQueue
pub mod LibcStream
pub mod Mutex
pub mod Owning
pub mod Reader
pub mod Sending
pub mod Server
pub mod Session
pub mod SingleShot
pub mod Stream
pub mod System
pub mod Task
pub mod Turns
pub mod UringBuffers
pub mod UringQueue
pub mod UringSink
pub mod UringStream
pub mod WaitGroup
pub mod Wire
