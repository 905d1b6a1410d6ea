-- ===== src/Lib.antt =====
-- IoT-Collector, a collector of environment readings: it receives frames from stations, cleans them
-- and sends them on. This library models the parts that decide what becomes of a frame.
--
-- A frame comes in by UDP (ingress/udp_receiver.c, module Ingress.Udp), or by TCP through the stream
-- decoder (ingress/tcp_poller.c and ingress/decoder.c, modules Ingress.Tcp and Stream), is decoded by
-- the frame codec (common/proto.c, modules Frame and Proto) and goes into the ring Q1
-- (pipeline/ring_queue.c, module Ring). The cleaner takes batches from Q1, cleans each frame
-- (pipeline/cleaner.c and pipeline/station_ctx.c, modules Cleaner and Station; the loop that main.c runs
-- is Program.Cleaning) and pushes what passes to the ring Q2. Dispatchers take batches from Q2 and send
-- each frame by multicast and by a TCP connection (egress/dispatcher.c, egress/mcast_sender.c and
-- egress/unicast_sender.c, modules Dispatcher and Unicast), whose rate the token bucket limits
-- (common/tbf.c, module Tbf). A frame that cannot be uploaded goes to the offline cache
-- (egress/cache_writer.c, module Cache), which the monitor (Dispatcher.Monitor) replays when the link is
-- up. common/thread_pool.c (module Pool) runs tasks that travel as frames in a ring, and common/stats.c
-- (module Stats) counts. main.c and common/signal_handler.c (module Program) start the parts and take
-- them down. tools/cloud_bridge.c (module Bridge) is a program of its own at the other end of the
-- upload, and tools/station_sim.c (module Simulator) one that makes frames to test with. Status has the codes of iot_collector.h, Base what the modules share, Tests the concrete runs.
--
-- A definition has the name of the C function, type or variable that it models, and a type the name of
-- the C type in another spelling (ring_queue_t is Ring). A field of C is a natural number below its
-- modulus and its arithmetic wraps as written (u8, u16, u32, u64, sub32, sub64); int16_t is its bit
-- pattern. Arrays are lists, and a buffer with a length in use is the list of the bytes in use. A
-- function that changes `*p` takes the old value and returns the new one; a result that may fail is a
-- Result, a status code a Status. htons and htonl are those of a little-endian host.
--
-- Locks: a function that holds a lock from its first to its last access is one step. Where a call waits
-- on a condition variable, what the other threads leave behind is an argument (Wake of Ring, Wait and
-- Event of Tbf), so that a theorem holds for every schedule. A function of the thread pool that takes
-- several locks is made of one function for each, with what others do in between as an argument; the
-- interleavings of these sections are the relation Step of Pool.Steps, and the tasks' way through them
-- the relation Move of Pool.Journal. The threads of main.c, with that of the statistics, are known by the
-- calls that start, stop and join them, and Machine of Program.Shutdown says when such a call returns. System calls answer from
-- lists that the caller gives, and a call whose answers run out has not returned.
--
-- Loops are structural recursion, on the rounds left or on a list of answers, or recursion on fuel: the
-- loops of frame_stream_feed have the fuel 2 n + len and len, enough since each turn makes these
-- smaller, and the loop of cache_replay_start has the number of bytes that are left to send, 28 for
-- each turn. The draining loop of tp_destroy has the number of frames in the queue, one for each turn.
--
-- double and math.h are a parameter (Doubles of Station), and malloc, pthread and socket calls are
-- Boolean or listed answers. Not modelled: NULL arguments, logging and printing, the command line,
-- what a stop does to a thread that uses the descriptor at that moment, the HTTP request and the
-- configuration file of the cloud bridge, the UDP thread of the simulator, and the program
-- tools/frame_decoder.c.
pub mod Base
pub mod Status
pub mod Frame
pub mod Proto
pub mod Ring
pub mod Stream
pub mod Tbf
pub mod Station
pub mod Cleaner
pub mod Cache
pub mod Unicast
pub mod Pool
pub mod Stats
pub mod Dispatcher
pub mod Ingress
pub mod Program
pub mod Bridge
pub mod Tests
pub mod Simulator
