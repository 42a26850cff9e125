-- ===== src/Lib.antt =====
-- holyhttp is a small HTTP server in C. The library models the parts that carry its logic, as
-- functions on values; memory, sockets and the clock are arguments.
--
-- Text models utils/string.c, a child for each family of functions: Hash (holy_bkdr_hash,
-- holy_bkdr_hash_bin), Search (holy_memfind, holy_strnstr, holy_memdup), Letters (holy_str2lower,
-- holy_str2upper, holy_replace_char, holy_str_append), Trim, Affix (holy_str_starts_with,
-- holy_str_ends_with), Decimal (holy_str_isdecimal), Base64 (holy_uint_to_s64), Tokens
-- (foreach_item_in_str of utils/string.h) and Path (holy_join_path, holy_get_real_path). A C string
-- is the list of its bytes before the NUL, and none is a null pointer.
-- Tlv models utils/tlv.c: tagged values, their comparison and their hash.
-- Dict models utils/dict.c: Dict has the operations on tagged values, Dict/Typed the entry points
-- for strings, numbers, pointers and blocks. The list of utils/list.h is a copy of the kernel's; the
-- record ListHead says what the dictionary relies on.
-- Timer models server/timer.c, whose tree is sorted by expiry. The tree of utils/rbtree.c is a copy
-- of the kernel's; the record RbTree says what the timers rely on.
-- Connection models server/connection.c: the send queue (write_to_buf, send_to_peer), the reassembly
-- of a request from packets (recv_from_peer), closing and the idle check. What send and recv answer
-- is an argument.
-- Its children: Status has the page of send_status, Write and Send are about writing and sending,
-- Stream about sequences of writes and flushes, Receive about packets, Close has closing and the
-- idle check, and Peer the connection as a whole (holy_new_conn).
-- Dataset models utils/dataset.c: a tree of subsets in a store with addresses. A read of a subset
-- that is not allocated is a fault.
-- Packet models server/packet.c: status texts, URL decoding, methods and query pairs; its children
-- Scan (the conversions of sscanf), Line (parse_requset_line), Fields (parse_headers, parse_cookies),
-- Multipart (the second half of parse_content) and Parse (the rest of it, and holy_new_req_pkt) model
-- the parsers, and Url, Query, Headers and Names are about texts that they read. What a parser stores
-- in a dictionary is the list of its stores.
-- Request models response, the redirects, set_cookie and cookies_to_str of server/request.c, and its
-- child Session the sessions there (get_or_new_session, check_session_timeout) with the record of
-- server/session.h; Fits and Chunks are about the texts that are sent, and
-- Handler models get_header, get_cookie, send_file and send_html. Life has holy_request_init,
-- free_request, the session's values and gen_session_id; Laws is about the references that they
-- count, and Starts about memory.
-- Template models the rendering of server/template.c over a data set as a parameter, and its child
-- Parse the parser there and holy_srender_by; Pieces and Plain are about texts without commands, and
-- Named fills the parameter with the operations of Dataset. Cached models get_template,
-- holy_srender_by with its cache, and holy_frender_by; Args models args2ds and holy_vsrender.
-- Request/Render models the pages that are sent from templates (send_srender_by, send_frender_by).
-- Mime models holy_guess_mime_type of utils/file.c, and Cache its holy_get_file, over what
-- holy_fetch_file reads.
-- Server models check_n_set_cfg, set_route, set_whiteroute, handle_static, handle_dynamic and the
-- choice between them in handle_data, of server/server.c. The routes are dictionaries
-- from trimmed paths to the addresses of handlers. Its child Handle models handle_data: the bytes
-- of a request become a packet (Packet), a request on a connection and a session (Request), an answer
-- (Server), and texts that are written to the connection (Connection). What the application does in
-- its handlers and in prerouting is a parameter: the texts that it writes, the values of its session,
-- and whether the request stays incomplete. Steps, Balance and Answers are about handle_data.
-- Loop models accept_connection, read_data, write_data, close_conn_by_fd, the dispatch of run_server
-- and the timer's check on a store of connections by address, with the table from descriptors to
-- addresses, and with the timers that check connections; using a connection that is freed, or
-- removing a timer that is gone, is a fault. Invariant, Good, Safety and Stale are about
-- these steps. Start models holy_server_init and the entry points of holyhttp.c for starting and for
-- routes.
-- Limit models set_fd_limit of holyhttp.c, over setrlimit.
-- Prelude has the lemmas that the parts share. Tests has runs, and the theorems at concrete inputs.
--
-- A u32 keeps its wrap-around at 2 ^ 32, a u64 at 2 ^ 64; a long or a pointer is its 64-bit
-- pattern, and a long has 64 bits. Allocations take a flag that says whether they succeed. Seven
-- loops are on fuel. That of holy_str_isdecimal has two rounds more than there are characters, since
-- one branch does not step forward once; that of holy_explode_timers needs one round more than
-- there are due timers. The loop over the parts of multipart content needs one round more than there
-- are parts; the search for a name within a part, with fuel of its own, needs one round where it
-- ends. The parser of templates is on fuel for the depth of its elements, and a round of its loop moves
-- on by a character at least. Clearing a data set is on fuel for the depth of its tree. The loop
-- that raises the limit on descriptors has twelve rounds where no more than the limit is granted. Where writing
-- finds no memory it writes a page by itself again; it takes the results of malloc as a list, and is
-- without a result where they are used up.
--
-- Not modelled: the system calls, log output, clock and time texts (utils/print.c, utils/time.c,
-- utils/address.h), the setters of prerouting, the log level and the common arguments
-- in holyhttp.c, get_bin_arg of server/request.c, server_listen and the calls of epoll in server/server.c, the copy of the content at the
-- end of a packet, what vsnprintf formats, and the file access of utils/file.c.
pub mod Prelude
pub mod Text
pub mod Tlv
pub mod ListHead
pub mod Dict
pub mod RbTree
pub mod Timer
pub mod Connection
pub mod Packet
pub mod Dataset
pub mod Request
pub mod Template
pub mod Mime
pub mod Cache
pub mod Server
pub mod Limit
pub mod Tests
