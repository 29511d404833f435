-- ===== src/Lib.antt =====
-- Verification of the JOTPOT server, a server for HTTP and other protocols written in Go: a model of
-- its code and theorems about it.
--
-- The program has a part that knows no protocol (the package jps) and an HTTP part (the package http
-- and those below it). A listener gives the jps.Server a connection; the server counts it, runs the
-- lists of stream-session, session and frame handlers on it, each ordered by stage and priority, and
-- ends the connection. The HTTP part turns bytes into requests and responses: it splits lines with
-- the character classes of http/httpchars, keeps the fields in a header store (http/header) that many
-- goroutines may use, decodes and encodes bodies with pipes looked up in a sorted list of encodings
-- (http/http1/encoding), and answers with statuses that maps translate to those of jps. Byte ranges
-- pass from the Range header (http/request.go) to jps.Range (jps/range.go), where they are sorted
-- and merged.
--
-- Base: what all parts share. Strings are lists of bytes (Base/Text), Go's maps with string keys are
--   lists of entries (Base/Maps), int64 is an integer with the wrap-around written out (Base/Int), and
--   Base/Decimal is what the code uses of strconv, where the fuel for writing a number is the number.
-- Jps/Range: jps/range.go. `abs_length`, `sort_ranges`, `merge_ranges` and `tidy_ranges` are AbsLength,
--   SortRanges, MergeRanges and TidyRanges; the loops are `sink`, `sort_loop`, `merge_loop`. Slices are
--   lists, int64 wraps, and the bounds of the theorems are written in their hypotheses.
-- Jps/Handlers: jps/ListMethods.go and the three handler types, whose lists have the same methods.
--   `insert`, `call_from` and `call_from_with_handler` are the methods of the same names.
-- Jps/Server: jps/server.go. `Control` is the state and the count of connections; a constructor of
--   `Step` is one critical section passed by a goroutine or a call of Open or Close. The count is a
--   uint64, and that there are fewer than 2^64 goroutines is a premise of the step that adds one.
-- Jps/Status: jps/responseStatus.go and jps/responseStatusMaps.go.
-- Http/Chars, Http/Quoted: http/httpchars. Loops over a string are recursions on it; a Go string
--   need not be UTF-8, so decoding a rune is written out (`decode_rune`).
-- Http/Header: http/header/header.go. The methods are functions on the store, and what other
--   goroutines do between the release of one lock and the taking of the next is a parameter. The
--   processors are parameters too: the code gets them from its caller.
-- Http/Ranges: the Range header of http/request.go. The parser's loop runs on fuel, one more than the
--   length of the rest of the value, which is enough as each round takes at least one byte.
-- Http/Message: the fields of requests and responses in http/request.go.
-- Http/Body: the limiting and the closing writer of http/http1/bodyWriter.go; the writer below is a
--   parameter.
-- Http/Body/Choice: BodyReader and BodyWriter of http/http1: which reader and which writer a body gets.
-- Http/Heads: http/http1/headerParser.go and headerFormatter.go. `parse_headers` is ParseHeaders, on a
--   bufio.Reader that is the bytes to come and the error behind them; the loop over lines and the one
--   over the folds of a value run on fuel, one more than the bytes to come, which is enough since each
--   round takes a line. The adder is a parameter. Scan, Text and Newline hold the lemmas on the scanners.
-- Http/Requests: http/http1/requestParser.go and reponseFormatter.go; net/url is a parameter.
-- Http/Session: http/http1/handler.go and writerWrapper of bodyWriter.go: the session with its lock, where
--   no result is the end of the program at the unlock of a free mutex; the stream is a parameter.
-- Http/Cache: http/cache-control.go. Directive is the header's directives, Expiry the expiry times,
--   where a getter also returns the time as it leaves it, Resource and Request what responses and
--   requests write, and Resource/Parse the parser of the former. The clock is an argument. Held is what
--   http/request.go keeps of both beside a header.
-- Http/Chunked: http/http1/encoding/chunked/chunkedParser.go. `read` is Reader.Read; the source is a
--   parameter. readSource runs on fuel of 264 reads: 8 double the timeout and 256 are counted. The
--   loops that wait for a byte, a line or the next chunk run on fuel that is an argument; four more
--   than the bytes that are still to come are enough for a source that gives them.
-- Http/Metadata: http/http1/metadata.go, the methods of HeaderMetadata as functions on the header; the
--   size, the range and the two fields that carry them are in Metadata itself, the rest in Names.
-- Jps/Pipe, Jps/Outgoing: jps/pipe/pipe.go and jps/outgoing.go. `write`, `close`, `flush` and
--   `bytes_body` are Writer's Write, Close, Flush and BytesBody or StringBody; the response below is a
--   record of operations on a world, and a panic is no result.
-- Http/Version: http/version.go and http/methods.go.
-- Http/Encodings: http/http1/encoding/list.go and util/stringCompare.go. The binary search runs on
--   fuel, the length of the list, which is enough as each round shortens what is searched.
-- Examples: runs of the model, and each theorem with hypotheses applied at a concrete input.
--
-- Not modelled: sockets, TLS and files, which are calls of the operating system and of Go's library;
-- the parsing of URLs, and the buffers below the parsers, which are Go's; so far also the media types,
-- the conditions, the entity tags, the URL handlers, and the loop over the frames of a session. A slice
-- that two holders share is a value in each: that one sees the other's writes is not modelled.
pub mod Base
mod Examples
pub mod Http
pub mod Jps
