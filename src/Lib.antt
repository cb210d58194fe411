-- ===== src/Lib.antt =====
-- packio, an asynchronous library for JSON-RPC and msgpack-RPC in C++ headers (include/packio).
--
-- A client and a server session each own a socket. Bytes that a read brings go into an incremental
-- parser, which frames them into texts, parses each text and gives requests or responses. A session
-- looks a request up in the dispatcher and calls the procedure with a completion handler, which
-- answers through the session. A client keeps a handler for each pending call, and reads while
-- there is one. A server accepts connections and starts a session for each. What either writes goes
-- through a manual strand, so that one write runs at a time.
--
-- Files and the code that they model:
--   Buffers     include/packio/nl_json_rpc/incremental_buffers.h. `receive` is one read in place
--               (`reserve_in_place_buffer`, the socket's write, `in_place_buffer_consumed`), `feed`
--               is the method of that name. Scan is an automaton over single bytes, to which the
--               buffers are refined in Escape, Refine and Feed; Frames is the grammar of a text,
--               Stream, Chunks and Reserve are about reads, Pieces builds concrete texts.
--   Strand      include/packio/internal/manual_strand.h. `push` and `next` are steps; a run is a
--               list of events. Order and Exclusion are about all runs.
--   Handler     include/packio/handler.h: `completion_handler` with its moves and its destructor.
--   Dispatcher  include/packio/dispatcher.h: the procedure map (Map, Known) and the wrappers (Wrap).
--   Rpc         include/packio/internal/rpc.h, and types that the protocols share.
--   Json        what packio uses of nlohmann::json, as a record of operations and laws; Concrete
--               fills it.
--   JsonRpc     include/packio/nl_json_rpc/rpc.h: the serializers, `parse_request`,
--               `parse_response` (RoundTrip), `extract_args` (Args), `incremental_parser` and the
--               loop over its messages (Parser); Wire and Calls join them to the buffers.
--   Client      include/packio/client.h: each body that runs on `call_strand_` is a step, which
--               returns the client and what it asks of asio. Cancel, Handlers, Reading and Race are
--               about these steps, Sends about what they give to be written, Routes and Unique
--               about which handler a response goes to, Numbered and Answered about calls in a row,
--               whose responses come in any order (Orders), with ids that Keys compares.
--               Writing adds the write strand with `async_send` and `async_notify`; Sent and
--               OneWrite are about all events, Cancels about the end of the reading.
--   Session     include/packio/server_session.h: the ends of reads and writes and the answers of
--               procedures are events. Answers follows a request through the dispatcher; Writing and
--               Reading are about all events.
--   Server      include/packio/server.h: `async_serve`, `async_serve_forever` and the sessions.
--               Serving follows a connection up to its first reply, Accepting the accept loop.
--   MsgpackRpc  include/packio/msgpack_rpc/rpc.h: the serializers, `parse_request` and
--               `parse_response` (RoundTrip), over a record of what packio uses of msgpack,
--               `incremental_parser` over one of its unpacker (Parser), `extract_args` (Args).
--               Receive and Calls join them to the loop over the messages.
--   Protocol    what client.h and server_session.h use of their argument `Rpc`, as a record of
--               operations and laws.
--   Exchange    client, protocol, session and dispatcher together: some calls from `async_call` to the
--               handlers that are called with their responses. The procedures finish in any order,
--               which is a parameter, `finish`. Json and Msgpack fill `Protocol` with the parts JsonRpc
--               and MsgpackRpc.
--   Docs        the scripts of the published documentation, under docs. Ids is `convertToId` of
--               docs/search/search.js; Dom the elements of the result page, with `FindChildElement`
--               (Walk). SearchResults has `createResults` and `Toggle`, with `Search` in Search and
--               Matches, and the keys in Nav, Keys, Next and Focus. SearchBox is the class of that
--               name: each handler is an event of `step`, and so are text that is typed and a timer
--               whose time has come; Windows, Bounds and Timers are about all events, and History is
--               about runs of them from the load of the page on. SearchData is
--               docs/search/searchdata.js. DynSections is docs/dynsections.js; Paths, Nested and
--               Folders are about the rows of a directory, Again about sections. Menu is
--               docs/menu.js, its Data docs/menudata.js, and Balanced is about the markup.
--   Common      lists, options and integers over the native numbers.
-- The Tests of a part hold runs on concrete inputs.
--
-- Bounds and fuel. Sizes are natural numbers: they are sizes of vectors in memory. The counter of
-- call ids wraps at 2 ^ 64. The search loop of `incremental_parse` has fuel for one round for each
-- byte of the buffer, and each round moves past a byte. The loop of `cancel_all_calls` has one round
-- for each pending call. The loop over the messages of a read is given any fuel above their number.
-- `FindChildElement` has fuel for each node below the element, and passes each at most once; `NavNext`
-- has fuel for each result behind its number, and the search for the last place for each place. A
-- number has no more hexadecimal digits than its value plus one.
--
-- Not modelled: asio itself (its operations are the events and effects of the steps),
-- nlohmann::json and msgpack (parameters), logging, traits and template machinery. A body that
-- `dispatch` gives to a strand is part of the step that gives it. A write that a socket takes is
-- not cut into several reads in Exchange: each side reads once. Where bytes are written behind the
-- end of the vector of a buffer, which is undefined, `write_at` lets it grow.
-- Of docs: the pages, the style sheets and the data of the index, which Doxygen wrote, and jquery.js
-- with its plugins. The browser is given by what the scripts use of it: elements, their display and attributes, the lower
-- case of texts beyond ASCII, and timers; that `blur()` and `focus()` run handlers of the field at
-- once is left to events of their own.
pub mod Common
pub mod Buffers
pub mod Strand
pub mod Handler
pub mod Dispatcher
pub mod Rpc
pub mod Json
pub mod JsonRpc
pub mod Client
pub mod Session
pub mod Server
pub mod Protocol
pub mod Exchange
pub mod MsgpackRpc
pub mod Docs
