-- ===== src/Lib.antt =====
-- The native plugin of OBS RVC, a filter of OBS Studio that converts a voice while it streams.
--
-- The plugin (plugin/src) is a filter of audio. OBS hands it the samples of a source a few
-- milliseconds at a time. The filter submits them to a conversion worker and takes converted samples
-- back. The worker has a thread of its own: it gathers the mono mix of the input in a queue, cuts a
-- window out of it (history, a block, lookahead), sends it as 16-bit samples to a separate process,
-- stitches the converted window to the last one by a crossfade, and appends it to a queue of output.
--
-- Which file models which part:
--
-- - Stream/Queue.antt: `AudioSampleQueue` of plugin/src/rvc/filter/rvc-filter-stream.cpp, a ring of
--   samples that grows. Queue/Window says which samples a queue holds; Queue/Copies, Queue/Growth,
--   Queue/Refine, Queue/Append and Queue/Run relate the operations to lists.
-- - Stream/Assembler.antt: `StreamAssembler` of the same file, `window` and `stitch` with the search
--   for the best shift. Assembler/Windows, Assembler/Best, Assembler/Fade and Assembler/Stitch hold
--   the proofs about them.
-- - Conversion/Frames.antt: `frame_count_for_duration` and `conversion_frame_count` of
--   plugin/src/rvc/filter/rvc-filter-conversion.cpp.
-- - Conversion/Codec.antt: `copy_audio_to_mono`, `decode_to_input_format` and the 16-bit samples of
--   `run`, of the same file, with their proofs in Codec/Pcm and Codec/Decode.
-- - Conversion/Worker.antt: `ConversionWorker::Impl` and what its owner calls: `reset`, `submit`,
--   `receive` and `stop`. Conversion/Input.antt is about the trim in `submit`.
-- - Conversion/Loop.antt: the critical sections of `ConversionWorker::Impl::run` and what lies
--   between them.
-- - Conversion/System.antt: the worker, its assembler and the place of its thread in the loop, with
--   one step for each critical section of the owner or the thread and for each exchange with the
--   other process, in any order. System/Sound is the invariant of the worker, System/Tracking what a
--   conversion under way still knows of the worker, System/Calls, System/Calm, System/Begin and
--   System/Finish the steps, System/Reachable the induction, System/Promises what follows for every
--   state that a new worker reaches. System/Steady and System/Tail follow the tail of the assembler
--   in the same way, and System/Exit a worker that is told to stop.
--   System/Output and System/Flow follow the samples from the thread to `receive`, System/Intake and
--   System/Feed from `submit` to the thread. System/Refusal is about options that no request has room
--   for.
-- - Conversion/Registry.antt: `workers`, `workers_stopping` and `next_stream_id` of the same file, with
--   the constructor, the destructor and `stop_all`; Registry/Keeps and Registry/Shutdown are its
--   proofs. Conversion/Report.antt: the real-time factor and the warnings at the end of `run`.
-- - Conversion/Playback.antt: what `receive` writes into the planes of OBS. Conversion/Request.antt:
--   when a request is refused, and in Request/Samples the audio that it carries.
-- - Filter/Update.antt: `rvc_filter_update` of plugin/src/rvc/filter/rvc-filter.cpp, which validates
--   the settings, configures the other process and resets the worker; its proofs are in
--   Filter/Outcome.antt. Filter/Validation.antt: `validate_models` of rvc-filter-validation.cpp
--   beside it. Filter/Threads.antt: the thread counts of the settings page, of the defaults and of an
--   update. Filter/Audio.antt: `rvc_filter_audio`. Filter/Page.antt: `rvc_filter_properties`, with the
--   limits of its fields in Page/Limits and Page/Kept. Filter/Defaults.antt: `rvc_filter_defaults`.
--   Filter/Creation.antt: `rvc_filter_create`, and an update over the context of the module.
--   Filter/LongIndex.antt: what becomes of an index path that is too long for a request.
-- - Utils/Files.antt, Utils/Hardware.antt and Utils/Renderer.antt: `is_regular_file`,
--   `available_cpu_count` and `software_rendering_warning` of plugin/src/utils.
-- - Utils/Strings.antt: `copy_string` of plugin/src/utils/string-utils.hpp.
-- - Ipc/Transport.antt and Ipc/Status.antt: the structures and statuses of plugin/src/rvc/ipc.
--   Ipc/Exchange.antt: one exchange with the other process and the audio client over it, up to
--   `rvc_ipc_convert`. Ipc/Connections.antt: how both clients connect, the connections of the threads,
--   and `rvc_ipc_create`, `rvc_ipc_configure` and `rvc_ipc_convert` with them; Connections/Apart and
--   Connections/Calls are about one call, Connections/Contexts about the life of a context, and
--   Connections/Settings about a configuration.
-- - Launcher.antt: plugin/src/rvc/worker/rvc-worker-process.cpp as it is built for POSIX, with the loop
--   of `wait_for_exit` in Launcher/Wait, and start and stop in Launcher/Lifetime.
-- - Plugin.antt: `obs_module_load` and `obs_module_unload` of plugin/src/plugin-main.c over all of
--   these. Plugin/Monitor is the order in which things must be taken and given back, and Plugin/Life
--   the proofs.
-- - Float.antt: the arithmetic of `float` and `double`, a parameter of the whole model. A theorem
--   that needs a law of it (an order of `<` that NaN keeps too, a cast of a clamped value that stays
--   in range) has it as a hypothesis.
-- - Prelude and the files below it: shared lemmas on lists, copies of memory, tests and integers.
-- - Tests and the files below it: the model at concrete values.
--
-- Integers. A `size_t`, `uint64_t` or `uint32_t` is a native natural number. The doubling of the
-- queue's capacity, the product in `frame_count_for_duration` and the counters wrap as in the source
-- (`% 2 ^ 64`). The other sums and products of the worker stay far below 2^64: a block has at most
-- 393216 frames and a frame at most 65535 channels. Subtractions on natural numbers are those that
-- the source guards. A block's length in ms plus 250 is not wrapped to 32 bits, which it would reach
-- only within 250 of the largest `int32_t`. Reading a vector past its end, which the source never
-- does on the paths proved here, yields silence. The generation counter is taken not to wrap: a call
-- that would use up its 64 bits is not a step.
--
-- Fuel. `grow` has 64 rounds; it doubles a capacity of at least one, so 64 doublings reach every size
-- up to 2^63. The loop of `wait_for_exit` has a round for each 10 ms of its timeout and one more, which
-- is enough where the clock goes on by 10 ms a round, as `sleep_for` promises; five seconds are 501
-- rounds. All other loops are recursion on a count of rounds or on a list.
--
-- Concurrency. Every critical section of the worker's mutex is one step, so a sequence of steps is an
-- interleaving of the thread and its owner. The thread goes on from its wait where the predicate
-- that it waits for holds; the notifications of the condition variable are not modelled. The
-- assembler belongs to the thread alone.
--
-- Parameters. Beside the arithmetic, these stand for what the plugin calls: the file system behind
-- `is_regular_file` and the files of the module, the planes, the audio format, the settings and the
-- graphics device of OBS, the processors and control groups of the system, `fork`, `waitpid` and the
-- clock, and iceoryx2: whether it opens a service and creates a client, and what it does in an
-- exchange. Where a theorem needs it, iceoryx2 is taken to make each client anew.
--
-- Not modelled: the wording of log messages and labels and `obs_log`, which prefixes a message; the
-- branch of the launcher for Windows, the same operations over other calls; and the Python program
-- plugin-worker. In a step of the system the answer of the other process is any status and any
-- response, and a clock says only whether a conversion was slower than real time.
pub mod Prelude
pub mod Float
pub mod Utils
pub mod Ipc
pub mod Stream
pub mod Conversion
pub mod Filter
pub mod Launcher
pub mod Plugin
pub mod Tests
