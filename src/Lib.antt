-- ===== src/Lib.antt =====
-- A model of the communication stack of the AI-deck's GAP8, with proofs: the libraries under
-- nanocockpit/lib and the older one under lib/cpx, the WiFi image streamer on top of that one,
-- and an example of image filters on the cluster.
--
-- The NanoCockpit stack moves camera frames to a computer and buffers back. From the bottom up:
-- event groups (nanocockpit/lib/event_group.h) resume coroutines; `cpx_spi_task`
-- (nanocockpit/lib/cpx/cpx_spi.c) exchanges packets with the ESP32, sending and receiving in the
-- same transfers; CPX (nanocockpit/lib/cpx/cpx.c) gives received packets to the callback of their
-- function; the streamer (nanocockpit/lib/streamer.c) cuts frames into packets and puts buffers
-- together, with checksums from nanocockpit/lib/crc32.c; queues (nanocockpit/lib/queue.c) hold
-- frames between the camera and their users. The FreeRTOS library under lib/cpx does the same for
-- other applications: `com_task` (lib/cpx/src/com.c) moves packets over SPI, and
-- lib/cpx/src/cpx.c packs and routes them. One of these, examples/other/wifi-img-streamer,
-- captures frames while it sends the one before: its camera pipeline has up to three buffers, two
-- of which the camera driver fills while the application sends the third.
--
-- The files:
-- * Base, with Tests, Lists, Exits and Memory, has the shared names: Boolean tests on numbers,
--   lists as arrays, the outcome of code that may fail an assertion (`Outcome`: `ok`, or `exit`
--   with the fault), and the bytes of memory. Bits has the laws of exclusive or.
-- * Queue is queue.c, a function for each `queue_` function; Queue.Slots is its specification, by
--   the lists of elements being consumed, ready and acquired.
-- * Spi is the requests and the transfers of cpx_spi.c: `send_req_init`, `set_head`, `set_tail`,
--   `max_tail_length`, and `exchange` with the three transfers of a packet, which Spi.Phases gives by
--   the length of the longer payload.
-- * LinkedList is list.h, over a memory of `next` pointers; CoEvent is the events of
--   nanocockpit/lib/coroutine.h, on which several coroutines wait.
-- * EventGroup is event_group.h; `wait_begin` and `wait_end` are the halves of
--   `co_event_group_wait` with interrupts disabled and enabled.
-- * SpiTask is the coroutine `cpx_spi_task`, cut at its resume points, with `send_async`,
--   `receive_async` and the callback of NINA's pin; `run` takes these in any order.
-- * Crc32 is crc32.c, with the table in its static variable as state.
-- * Cpx is cpx.c and cpx_types.h: `Header` with the bit fields, `Callbacks` with
--   `cpx_register_rx_callback` and the dispatch of `cpx_receive_task`, the send requests, and
--   `SendTask` with the senders of `cpx_send_task`, in rounds in Finish.
-- * Streamer is streamer.c: Packet has the layout of packets, Send is `streamer_send_task`,
--   Receive is `streamer_cpx_callback` with the functions of clients.
-- * UartProtocol is the rounds of uart_protocol.c on a stream of bytes; Camera is camera.c, with
--   its coroutine in Task; TraceBuffer is trace_buffer.c for one core; Rng is rng.c.
-- * Com is a round of `com_task`, Router is lib/cpx/src/cpx.c.
-- * WifiStreamer is examples/other/wifi-img-streamer: Pipeline is camera_pipeline.c, its
--   functions cut at their waits and run with the driver's captures in any order (Runs);
--   CpxStream is cpx_stream.c; HimaxTiming is himax_timing.c on any camera; App has
--   `wifi_rx_task`, `setup_wifi` and `send_jpeg` of wifi-img-streamer.c.
-- * Image is examples/image_processing/simple_kernel_example/img_proc.c, `Image.Cores` the cores
--   of the cluster one after another.
--
-- Conventions. Numbers are natural numbers; where C subtracts or adds in 16 or 32 bits and can
-- wrap around, the remainder by the power of 2 is written out. Pointers are addresses, NULL is 0,
-- and alignment is a remainder by 4. A failed assertion ends the program and is an `exit`. Event
-- masks are lists of bits. Loops on fuel are `send_loop`, one unit for each packet, where each
-- packet carries at least one byte, so that the size of the frame is enough, `send_from`, where
-- for the same reason the size of the buffer and one is enough, `poll`, with one unit for each
-- millisecond of the timeout and one, `scan`, with 125 for the bytes of the buffer, and the loops
-- over linked lists, where the number of elements is enough. All other loops are recursions on
-- lists, on the eight bits of a byte or on a number of rounds.
--
-- Compile-time options are parameters: CPX_SPI_BIDIRECTIONAL of `exchange`,
-- STREAMER_RECEIVE_CHECKSUM of `cpx_callback`, and CAPTURE_MODE of the camera pipeline. What
-- `pi_l2_malloc`, FreeRTOS and the SPI device deliver is an argument of the functions that use
-- it. The camera driver of the WiFi streamer completes captures in the order in which they were
-- queued, and only while the camera runs; what its registers do is a parameter. Between two waits
-- the functions of camera_pipeline.c run without a capture being completed. When PMSIS sets the
-- field `done` of a task is not in the sources: for the senders of CPX packets it is a step of its
-- own, and that it is taken only together with the call of the task's callback is a hypothesis
-- (`DoneAtCallback`); a sender that ran in between would drop those that wait, with
-- `co_event_init`. The layout of bit fields in memory is the compiler's, from the lowest bit up. The
-- `int` offsets of pixels in Image are natural numbers, which do not overflow.
--
-- Not modelled: the coroutine queues, the sensor of the NanoCockpit camera,
-- tracing other than the trace buffer, prints, the setup of devices and pins, the camera's and
-- the encoder's included, statistics and metadata of frames; the other example applications, the
-- networks generated for them and the vendors' kernels; the clients in Python.
pub mod Base
pub mod Bits
pub mod Queue
pub mod Spi
pub mod LinkedList
pub mod CoEvent
pub mod EventGroup
pub mod SpiTask
pub mod Crc32
pub mod Cpx
pub mod Streamer
pub mod Com
pub mod Router
pub mod WifiStreamer
pub mod Image
pub mod UartProtocol
pub mod Camera
pub mod TraceBuffer
pub mod Rng
