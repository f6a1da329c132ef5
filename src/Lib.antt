-- ===== src/Lib.antt =====
-- gemini-cpp, a C++ client library for the Gemini API with a chat session, tool calls and a harness that
-- evaluates the code a model writes, as definitions that can be run and theorems about them.
--
-- The parts and how they interact. A `Client` (src/client.cpp) prints a request with src/serialization.cpp,
-- sends it by a `Transport`, retries with the delays of src/retry.cpp, and parses the answer; a streamed
-- answer goes through the event-stream parser of src/sse.cpp, and its chunks are merged by src/types.cpp.
-- A `ChatSession` (src/chat.cpp) keeps the history and runs the tools of a `ToolRegistry` (src/tools.cpp)
-- between two calls of the client. The harness (src/eval) opens a session for each task, takes the C++
-- source from the reply, compiles and runs it, and feeds failures back. The command line program
-- (apps/main.cpp) reads its words and runs one of these: a question, a chat, a count, a listing, or the harness.
--
-- Files.
--   Base          numbers, integers (Base/Int), lists (Base/Lists), byte strings (Base/Text) and tests
--   Error         include/gemini/error.hpp, src/error.cpp. `Result` has a third case, an exception of a
--                 library, beside the two of `std::expected`
--   Sse           src/sse.cpp; the handler is a function on a state of its own. Sse/Chunks, Sse/Encode and
--                 Sse/Invariant are about `feed`, `finish` and their calls on chunks
--   Types         include/gemini/types.hpp, src/types.cpp, with `merge`; Types/Merge, Types/Compact
--   Json          what the program uses of nlohmann::json and of doubles, as records of operations and
--                 their laws; Json/Sample fills them with a small JSON type and integers for doubles
--   Wire          src/serialization.cpp: parsing in Wire, printing in Wire/Print, errors in Wire/ApiError
--   Retry         src/retry.cpp
--   Client        src/client.cpp: options, metrics and `with_retry` in Client, the unary calls in
--                 Client/Calls, `list_models` in Client/Models, `stream` in Client/Stream. The state is
--                 `Env`: the outside world, the metrics, the delays slept and the chunks delivered
--   Transport     src/curl_transport.cpp: the callbacks, the options and the result of a transfer over libcurl
--                 as a parameter; Transport/HeaderLine, Transport/Streaming, and Transport/Parser for the
--                 callback that the client gives it
--   Tools         src/tools.cpp: the registry and `invoke`; the expression evaluator is Tools/Expression, from
--                 numbers to powers, and Tools/Evaluate, the levels that call themselves; Tools/Builtin
--                 has the two built-in tools
--   Chat          src/chat.cpp: `send` over an interface of the client, which Chat/Talk fills
--   Eval          src/eval: Eval/Extract is code_extract.cpp; Eval/Outcome, Eval/Runner, Eval/Rounds and
--                 Eval/Workers are runner.cpp, over an operating system that is a parameter; Eval/Kernel and
--                 Eval/Process are process.cpp, over the calls that it makes of the system;
--                 Eval/Report is report.cpp, its JSON form in Eval/Report/Printed, and Eval/Tasks is task.cpp
--   Log           include/gemini/logging.hpp, src/logging.cpp: the levels, and the text of a line
--   Cli           apps/cli_args.cpp
--   Program       apps/main.cpp: a command takes its words and a `Shell`, which is the client's `Env`, the
--                 two output streams, the log's settings and the written files. Program/Ask, Program/Talk,
--                 Program/Queries and Program/Assess have the commands, Program/Entry has `main`, and
--                 Program/Whole puts them together. Program/Conversation is about the loop of `chat`;
--                 Program/Refusal and Program/Safety are about wrong usage
--   References    tasks/*/reference.hpp, the reference solutions of the tasks: References/ThreadPool is the
--                 thread pool and References/SpscQueue the queue of one producer and one consumer, as
--                 step relations; References/Semver compares versions, and
--                 References/Duration parses durations; References/LruCache is the cache of the pairs used last
--   Tests         runs at concrete inputs
--
-- Names are those of the source in this spelling: `Client::with_retry` is `with_retry`, a captured variable
-- of a lambda is a field of a record (`Sink`, `Log`, `Scan`), and a long function is split at its early
-- returns into helpers by clauses. Numbers: `std::uint64_t` counters wrap at 2^64, the cast to `int` of a
-- candidate's index wraps at 2^32, a `Retry-After` value in milliseconds at 2^64, `std::from_chars` stops at
-- the type's range, the cast of a double is a parameter, and other integers are unbounded: token counts,
-- milliseconds, and rounds.
--
-- Fuel. `retry_loop` has as many rounds as `max_attempts` allows, and `talk` and `rounds` as many as their
-- options, so that none of them can run out before the source's loop ends. `list_pages` has the greatest
-- number of pages as fuel, since a server may name a next page for ever. `level` recurses on how many calls
-- may still be open, 200 at first, and `op_loop` on the length of the text. The three loops of `run_process`
-- have fuel, with a theorem that says how much is enough, and the loop of `parse_duration` has as much as the
-- text has bytes, which a theorem says is enough.
--
-- Not modelled: libcurl, what a child does between `fork` and `exec`, files, clocks and the terminal, which
-- are parameters; when Ctrl-C was pressed, which is a parameter of the commands, and the outcome of
-- `Runner::run` in `eval`, whose workers are a step relation in Eval/Workers; the log lines that the library
-- writes to the error stream while a command runs; the token bucket among the reference solutions, and the
-- destructor and `size_approx` of the queue. The client's metrics and the sleeper are called by one thread.
-- A callback for chunks throws no exception; the observer of tool calls may.
pub mod Base
pub mod Error
pub mod Sse
pub mod Types
pub mod Json
pub mod Wire
pub mod Retry
pub mod Client
pub mod Transport
pub mod Tools
pub mod Chat
pub mod Eval
pub mod Cli
pub mod References
mod Tests
pub mod Log
pub mod Program
