-- ===== src/Lib.antt =====
-- RyuLib for C++: a header-only library of buffers, queues, threads, sockets and media helpers. This
-- development models the headers that hold state or compute something of their own.
--
-- Parts, with the files under include/ryulib/ that they stand for:
-- * MemoryBuffer (MemoryBuffer.hpp): the classes Buffer and MemoryBuffer, a queue of blocks that is
--   written in blocks and read by counts. VideoCreater (VideoCreater.hpp) collects audio samples in
--   one and cuts them into frames: writeAudioPacket is `write_audio_packet`, do_writeAudioPacket
--   `do_write_audio_packet`.
-- * SocketUtils (SocketUtils.hpp): packets with a header of three bytes, create_packet, and the
--   PacketReader that cuts a stream into packets. canRead is `can_read`, getText `get_text`.
-- * SocketServer (SocketServer.hpp): the connections of a server, which reads packets by header and
--   body; handle_read_header is `handle_read_header`, and so on.
-- * PacketReader (PacketReader.hpp): a buffer of bytes read by counts. AudioSdl (sdl_audio.hpp) cuts
--   samples into frames with one, and queues them for the callback of SDL.
-- * ThreadQueue (ThreadQueue.hpp): a queue under a mutex. SimpleThread (SimpleThread.hpp): a thread
--   with a flag. Scheduler (Scheduler.hpp): a thread that works off a ThreadQueue of tasks.
-- * SuspensionQueue (SuspensionQueue.hpp): a queue whose `pop` waits for an item. Worker (Worker.hpp):
--   a thread that works off one.
-- * YuvTools (yuv_tools.hpp): the colours of a pixel; YuvTools/Encode and YuvTools/Decode hold the
--   loops of RGBtoYUV420 and I420ToARGB over memory.
-- * Strg (strg.hpp): the functions that cut and extend strings; deleteLeftPlus is `delete_left_plus`.
-- * VideoZip (VideoZip.hpp) and VideoUnZip (VideoUnZip.hpp): frames of libvpx with their sizes in
--   front; VideoUnZip/RoundTrip puts the two together.
-- * EpollServer (epoll/SocketServer.hpp): the server on epoll; `thread_step` is a round of its thread,
--   and EpollServer/Reported has the step relation of the kernel and the clients.
-- * TcpClient (TcpClient.hpp): a client on a socket; `round` is a round of its Scheduler.
-- * AudioIo (AudioIO.hpp): AudioInput and AudioOutput with their callbacks; recordCallback is
--   `record_callback`, playCallback `play_callback`.
-- * SystemAudio (SystemAudio.hpp, and the same file in include/WASAPI/): the chain of calls that opens
--   the capture of the system's sound, and the rounds of its worker.
-- * SystemAudioCapture (SystemAudioCapture.hpp) collects its blocks in a MemoryBuffer, and
--   AudioCapture (AudioCapture.hpp) mixes them with the sound of an AudioInput.
-- * SocketClient (SocketClient.hpp): a client that reads packets by header and body. PipeSender
--   (PipeSender.hpp): a pipe that a Worker writes.
-- * DesktopCapture (DesktopCapture.hpp): the DesktopCaptureOption, the area that is captured.
-- Under include/ffmpeg/ lies a player: FfMedia (FFStream.hpp) reads packets of a file, FfAudio
-- (FFAudio.hpp) decodes and plays those of the sound on an AudioSdl, FfVideo (FFVideo.hpp) shows the
-- pictures when the sound has come to their time, and FfPlayer (FFPlayer.hpp) opens, routes and closes.
--
-- Common holds what they share: tests on numbers, lists measured by native numbers, blocks of memory
-- and signed integers.
--
-- Conventions. A record stands for an object, a function from the record for a method; what the
-- method returns comes beside the new record. `none` of an Option result is a run that meets
-- undefined behaviour, throws or aborts, or is out of fuel. A null pointer is `none` or a constructor of its
-- own. A block of memory is the list of its bytes; a memcpy inside one block whose regions overlap is
-- a fault. Sizes are the values of `int` that are not negative, and `add_int` and `mul_int` are the
-- sums and products for which one past 2^31 - 1 is a fault; the frame sizes and the data sizes of AudioSDL and
-- VideoCreater, which are products, are taken not to overflow. malloc succeeds. Threads are
-- sequences of steps; a step is what is done while a mutex is held, or one test or call.
--
-- Fuel. The loop of MemoryBuffer.read has 2 * buffers + 1, since each buffer is met at most twice.
-- The loops of AudioSDL.play, of writeAudioPacket, and of a client that drains a PacketReader have
-- the number of held bytes + 1, since each round takes at least one byte, and so has that of
-- VideoUnZip.decode, with the size of its data. Where a round takes none, no fuel is enough, and the
-- code does not end either.
--
-- Counters such as `references`, `open_sockets` or `contexts` count what a library has given out and
-- not got back.
--
-- Not modelled: FFmpeg, SDL, libvpx, PortAudio, COM, sockets and the Windows API, of which only the
-- answers enter; the arithmetic of `float`, which is a parameter; boost::asio, the resampler, the
-- windows, and the wrappers of codecs, of compression libraries and of system services.
pub mod Common
pub mod MemoryBuffer
pub mod SocketUtils
pub mod PacketReader
pub mod AudioSdl
pub mod VideoCreater
pub mod ThreadQueue
pub mod SimpleThread
pub mod Scheduler
pub mod SuspensionQueue
pub mod YuvTools
pub mod Worker
pub mod SocketServer
pub mod Strg
pub mod DesktopCapture
pub mod VideoZip
pub mod VideoUnZip
pub mod EpollServer
pub mod AudioIo
pub mod SystemAudio
pub mod TcpClient
pub mod FfMedia
pub mod FfAudio
pub mod FfVideo
pub mod FfPlayer
pub mod SocketClient
pub mod SystemAudioCapture
pub mod PipeSender
pub mod AudioCapture
