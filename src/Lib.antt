-- ===== src/Lib.antt =====
-- rikitiki, a C++ library of web servers: its parsers, its writers and its dispatch as functions.
--
-- A server hands the bytes of a connection to an incoming message, whose BufferedReader cuts them
-- into lines and blocks; the message reads a start line, headers and a body from them. The server
-- looks for a handler, often a route that scans the URI for arguments. A handler answers through
-- an outgoing message, which writes a start line, headers and a payload in the same format. A
-- websocket's process collects frames into messages, and its context writes them. Headers, query
-- strings, forms, statuses, methods, content types and encodings are small types with their own text forms.
--
-- The files, and the code that each is about:
--   Base and its modules: tests on numbers, lists indexed by native numbers, text as bytes, strtol,
--     stream input and output of numbers, std::map with text keys.
--   Http.RequestMethod, Http.Encoding: src/http/Enums.cc, include/rikitiki/http/Enums.h.
--   Http.ContentType, Http.ContentType.Names: src/http/content_types.cc and its header.
--   Http.Status: src/http/http_statuses.cc and its header, HttpStatus::StartString of Enums.cc.
--   Http.Header, Http.Header.Csv, Http.Header.Query: src/http/Header.cc and its header; the
--     comma-separated list of a header, and query strings.
--   Http.Parsing: src/http/parsing/MessageParserState.cc and its header.
--   Http.Parsing.Scan: include/rikitiki/http/parsing/Utils.h and the copies in src/http/Response.cc.
--   Http.Parsing.Reader: BufferedReader of src/http/Response.cc. Fuel, Cut, Round, Split and Line
--     below it hold its lemmas: fuel, texts cut in two, one round, split data, one line.
--   Http.Incoming: src/http/incoming/Message.cc and its header. Lines, Client and Steps below it:
--     the parser's invariant, the parser as a client of BufferedReader, its single steps.
--   Http.Response: src/http/Response.cc, the start line of a response.
--   Http.Outgoing: src/http/outgoing/Message.cc, src/http/outgoing/Response.cc. Output below it:
--     the bytes of a whole response; Reading and RoundTrip: those bytes read back.
--   Http.Message, Http.Message.Setters: src/http/Message.cc: getters, setters, operators, printing.
--   Http.Request, Http.Request.StartLine: src/http/Request.cc: the start line of a request.
--   Http.Memory, Http.Memory.Collected: src/http/outgoing/Request.cc, src/http/outgoing/Response.cc:
--     outgoing messages kept in memory.
--   Http.Buffered, Http.Buffered.Once: src/http/helpers/bufferedMessageTypes.cc and its header.
--   Routing, Routing.Scan: include/rikitiki/routing.tcc, src/routing.cc: modern_sscanf and routes.
--   Dispatch, Dispatch.Choice: src/server.cc: the server's handlers.
--   Context: src/connContext.cc, src/server.cc, include/rikitiki/server.h: the operators of a
--     connection context and of a reference to it, and the end of the context.
--     Serve and Thrown: a request from its handler to the bytes that have gone out.
--   Conversions: include/rikitiki/content_handler.h, src/connContext.cc: the table of conversions and
--     the error where there is none. Table: what it holds. Accept: the header as the other side
--     reads it.
--   RequestClient: src/http/helpers/SimpleRequestClient.cc. Sent and Exchange below it: the text of a
--     request, and a response on its way to the client.
--   Configuration: src/configuration/configuration.cc, the expansion of variables. Scan and Expansion
--     below it: where the scans stop, and what the expansion comes to.
--   Contents, Contents.Escape, Contents.Form: src/connContext.cc: form contents, unescaped and mapped.
--   StaticContent, StaticContent.Root: src/StaticContentHandler.cc: files under a directory.
--   Url, Url.Parts: src/utils/URL.cc: the parts of an address.
--   Websocket.OpCode, Write, Frame: src/websocket/websocketContext.cc and its header: frames written,
--     and received. Write.Total, Receiver and Rfc: the end of Write, a receiver as RFC 6455 has it,
--     and what it reads.
--   Websocket.Process: src/websocket/websocketProcess.cc. Single and Collect below it: how messages
--     are made up of frames.
--   Websocket.Server: src/websocket/websocketServer.cc and WebsocketRoute. Table below it: closing.
--   Rest, Rest.Order: include/rikitiki/rest/rest.tcc: the registration of a class's functions.
--   Mongoose, Mongoose.Sockets: src/mongoose/server.cc, src/mongoose/connContext.cc: requests, events
--     and websocket callbacks. Received, Events and Sockets.Delivery hold their lemmas.
--   Cef, Cef.Resource, Cef.Client: src/cef: an embedded browser's requests, the response that it
--     reads while it is written, and requests that the program sends itself. Uri, Body and Exchange
--     hold their theorems.
--   Tests and its modules: runs at concrete inputs.
--
-- Conventions. A std::string is a list of bytes, a char* is read with `c_str` up to its NUL.
-- size_t is a number below 2 ^ 64 with its wrap-around written out, and (size_t)-1 is `size_max`.
-- Where the code throws or has no defined result, a function returns `none`, `threw` or `err`. A
-- virtual function that another class implements is a parameter. The reader's loop runs on fuel,
-- one round for each byte and one more: a round that reads a line takes at least its line break.
-- The loop of WebsocketContext::Write has one round for each byte and one more, and a round sends
-- at least one byte. The file system, the sockets' raw_write, the functions that routes call, and
-- a route's extraction of arguments other than strings are parameters too. mxcomp's conversions
-- between UTF-8 and wide characters are the parameter `Utf`. So are mongoose's messages and the
-- browser's, the order in which Register's calls are made, and the functions that convert a type.
-- expand_variables has one round for each byte of the value and one more: a round ends behind a
-- byte not reached before.
--
-- Not modelled: the sockets and event loops of the servers (the rest of src/mongoose, src/apache,
-- src/iis7, src/os), the bindings to template and JSON libraries (src/ctemplate, src/stencet,
-- src/jsoncpp), the vendored libraries under third, the examples, logging, locks and condition
-- variables. Neither are the reading of configuration files, the static functions for the Accept
-- header that nothing calls, and code that stands in comments.
pub mod Base
pub mod Http
pub mod Routing
pub mod Dispatch
pub mod Context
pub mod Conversions
pub mod RequestClient
pub mod Configuration
pub mod Contents
pub mod Url
pub mod StaticContent
pub mod Websocket
pub mod Rest
pub mod Mongoose
pub mod Cef
pub mod Tests
