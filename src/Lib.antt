-- ===== src/Lib.antt =====
-- libvarlink: the parts of the C library that a varlink connection stands on.
--
-- A varlink peer sends JSON objects over a byte stream, each closed by a NUL byte. A client packs a method call
-- into an object (lib/message.c), whose fields stand in a balanced tree (lib/object.c, lib/avltree.c); the object
-- is printed as JSON (lib/value.c) and queued on a stream (lib/stream.c). The peer reads the stream up to the next
-- NUL, parses the JSON with the scanner (lib/scanner.c), and unpacks the call. The files:
--
--   KeyOrder          the compare functions of the trees, as orders: avl_tree_ptr_compare of lib/avltree.c and the
--                     strcmp of field_compare in lib/object.c
--   Avl               lib/avltree.c: node_rotate_left and _right, node_rebalance, avl_tree_insert, _remove, _find,
--                     _first, _last, _node_next, _node_previous, _get_elements. A node with its parent pointers is a
--                     Position: a subtree and the path to the root.
--   Error             lib/varlink.h: the error codes
--   Scanner           lib/scanner.c: white space, comments, words, keywords, operators; Scanner/Names the names of
--                     interfaces, members, fields and types; Scanner/Strings JSON strings with their escapes;
--                     Scanner/Docs the comments above a field
--   Types             lib/type.c: varlink_type_new reads a type; Types/Print is varlink_type_print
--   Json              lib/value.c: how a string is written as JSON
--   Stream            lib/stream.c: varlink_stream_read, _write, _flush and their buffers
--   Value             lib/value.h: the kinds of values
--   Object            lib/object.c: the setters and getters of an object
--   Array             lib/array.c: appending and reading; the room doubles, from 16 on
--   Uri               lib/uri.c: addresses, split into protocol, host or path, interface, member, query, fragment
--   Connection        lib/connection.c: varlink_connection_call, varlink_connection_process_events, the queue of calls
--   Interface         lib/interface.h, lib/interface.c: interfaces and their members, and how these are looked up;
--                     Interface/Reading is varlink_interface_new
--   Service           lib/service.c: varlink_call_reply, varlink_call_reply_error; Service/Methods is
--                     varlink_service_method_callback, Service/Dispatch varlink_service_dispatch_connection.
--                     A call has its reference count, and is passed on as `none` once it is freed; a connection has the
--                     mask that is stored for it and the one that the kernel has
--   Message           lib/message.c: packing and unpacking of calls and replies
--
-- How C is rendered. A function that returns 0 or a negative error code and stores through pointers returns a
-- Result. A string is the list of its bytes, without the final NUL. Pointers to nested objects and arrays are
-- addresses, that is, numbers. What a file descriptor answers to read and write is a list of answers, over which the
-- loops of lib/stream.c recur; a list that ends stands for a call that still waits. C's sscanf, the UTF-8 check of
-- lib/c-utf8.c (a copy of another project's library), the conversion of an int to a double, what epoll_ctl
-- answers, where a new object stands, what a method's callback does and, for the stream, the two conversions between
-- objects and JSON are parameters.
--
-- Bounds. The scanner's string loop runs on fuel, the length of the text from the opening quote on; the reading
-- of a type, and of an interface description, on the length of the text and one more. The loops over the messages of a connection recur over the calls of varlink_stream_read. The walk over a tree runs
-- for the tree's number of elements, as it does in the source. The counts of lib/avltree.c do not wrap, since memory
-- bounds them; the size_t that varlink_stream_write tests keeps its 64 bits.
--
-- Not modelled: allocation failures (every allocation succeeds); reference counts, but for a call's, and free; the numbers
-- of the scanner; the JSON conversions of objects and arrays; the printing of interface
-- descriptions (lib/interface.c); of lib/service.c, accepting, closing, the loop over the events and the methods of
-- org.varlink.service; closing a connection; lib/transport*.c, lib/util.c and the epoll loops, which call the operating system; the command line tool.
pub mod Prelude
pub mod KeyOrder
pub mod Avl
pub mod Error
pub mod Scanner
pub mod Json
pub mod Stream
pub mod Value
pub mod Object
pub mod Message
pub mod Array
pub mod Uri
pub mod Types
pub mod Interface
pub mod Service
pub mod Connection
