-- ===== src/Lib.antt =====
-- ngp-encode-server: renderers draw the two eyes of a scene, this server asks them for frames,
-- encodes the frames and streams the packets to its clients. This library models the parts that
-- carry its logic and proves what makes them correct.
--
-- How the parts interact. The client threads (src/server.cpp), one for each renderer, share the
-- atomic counters and draw from them the side and the index of each request (Requests). A round of
-- a thread (Client) takes the camera of that side from the camera manager (Camera), sends the
-- request and reads the answer in messages framed by their length (Socket), makes a frame of it
-- (RenderedFrame) and pushes it to the queue of its eye (FrameQueue). For each eye a processor
-- (Encode) pops frames, draws texts on them (Encode/Overlay), converts them and files them by their
-- index in a map (FrameMap); a sender takes them out of it in the order of the indices and hands
-- them to the scene encoder and the depth encoder (Codec). For each encoder a thread polls packets
-- (Encode/Packets) and gives them to a packet stream server (PacketStream), which sends them to all
-- its websocket clients (WebSocket). The camera control server (Camera) lets a client move the
-- cameras, which reopens encoders of another size.
--
-- Which file models what, children of a file being the proofs about it:
--   Base: shared names, lists, tests into Bool; Base/Int: int and ssize_t; Base/Exceptions: LockTimeout
--     (include/base/exceptions/lock_timeout.h) and the other exceptions, as values of `Result`.
--   FrameQueue: src/base/video/frame_queue.cc. `push` and `pop` are the calls; Monitor has the mutex and
--     the two condition variables, with the waiting threads counted, as a step relation.
--   OrderedMap: std::map and std::set as they are used. FrameMap: src/base/video/frame_map.cc; `insert`
--     and `get_delete` are its methods, View its abstraction to a function.
--   Socket: src/server.cpp, socket_send_blocking to socket_receive_blocking_lpf.
--   Codec: AVCodecContextManager in src/base/video/type_managers.cc; `codec_ctx_init`,
--     `change_resolution`, the constructor and the destructor, with the contexts that are allocated;
--     Codec/Locks has its two mutexes and CodecInfoProvider, a step relation.
--   Camera: src/base/camera_manager.cc and src/base/server/camera_control.cc. set_camera_left and
--     set_camera_right are one function of an eye, applied to each.
--   Requests: fetch_xor and fetch_add of socket_client_thread, one atomic operation a step.
--   WebSocket, PacketStream: src/base/server/websocket_server.cc, src/base/server/packet_stream.cc;
--     WebSocket/Racing has send_to_all step by step, among the handlers that run on the other thread.
--   RenderedFrame: src/base/video/rendered_frame.cc and include/base/video/rendered_frame.h.
--   FrameManager: FrameManager and AVFrameWrapper in src/base/video/type_managers.cc and
--     include/base/video/type_managers.h, over a heap whose blocks are numbered as they are allocated;
--     FrameManager/Scoped puts SwsContextManager, AVPacketManager and a whole RenderedFrame on it;
--     FrameManager/Lines has the line sizes.
--   Timer: include/base/scoped_timer.h.
--   RenderText: render_string_to_frame in src/base/video/render_text.cc, as the places where it writes,
--     and what that does to the pixels; RenderText/Layout has the layout that RenderText/Text compares it
--     with, in integers.
--   Manage: socket_manage_thread in src/server.cpp from the call of `socket` on; Manage/Address: its
--     reading of `ip:port` by std::getline and std::stoi; Manage/Threads: both, a thread for each renderer,
--     and socket_main_thread.
--   Main: src/main.cpp. Main/Flags: the command line as the args library reads it; Main/Startup: `main`
--     until its threads run, an exception leaving with the servers that were started; Main/Joining:
--     the signal handler and the joining of the threads; Main/Shutdown: what follows the joins;
--     Main/Serving: what the threads are started with; Main/Session and Main/Interleaved: the whole way
--     of the frames, of one renderer and of any number of them; Main/Running: all threads that move
--     frames at once, a step relation; Main itself: which encoders main hands to the threads.
--   Client: `client_round` is a round of the loop of socket_client_thread, Client/Session the loop,
--     and Client/Concurrent any number of these threads.
--   Encode: `process_round` and `send_round` are rounds of process_frame_thread and send_frame_thread in
--     src/encode.cpp; Encode/Pipeline runs them in any order; Encode/Packets is receive_packet_handler
--     and receive_packet_thread, Encode/Stream its rounds between clients that come and go;
--     Encode/Rates is encode_stats_thread.
--
-- Bounds and fuel. The uint64 counters, the count and the times wrap at 2 ^ 64, `unsigned` at 2 ^
-- 32; where a theorem needs that a counter has not wrapped, it says so. The loops of Socket run on
-- the list of what the system calls return, and Encode/Packets on the list of what the polls meet:
-- an empty list means that the thread waits, a result of its own, and theorems about a finished
-- transfer ask for as many calls that move data as there are bytes, which is enough since each
-- moves one at least.
--
-- Parameters, since their code is elsewhere: the kernel's answers, libavcodec's and libswscale's
-- results, websocketpp's refusals, the protobuf encoding, the memory that can be had, the glyphs of
-- the font, the printing of a float, the clock.
--
-- Not modelled: the options of an encoder and AVDictionaryManager around them, since what becomes of
-- the dictionary is up to libavutil and libavcodec; the pixels that libswscale writes, the bytes of a
-- protobuf message, and the logging. A call on a locked object is one step, and so is a round of a
-- thread where no theorem splits it; of the data races that the locks do not prevent, those of
-- Codec/Locks and WebSocket/Racing are in the model.
pub mod Base
pub mod Timer
pub mod FrameQueue
pub mod OrderedMap
pub mod FrameMap
pub mod Socket
pub mod Codec
pub mod Camera
pub mod Requests
pub mod WebSocket
pub mod PacketStream
pub mod RenderText
pub mod Encode
pub mod Client
pub mod Manage
pub mod RenderedFrame
pub mod FrameManager
pub mod Main
