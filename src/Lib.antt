-- ===== src/Lib.antt =====
-- middle_man: a reporter for intercepted connections (midman) on top of the mitmproxy proxy
-- (mitmproxy). The proxy decrypts the traffic of clients and servers and writes what it sees to a
-- pipe; the reporter reads the pipe, pairs each plaintext with the ciphertexts that carried it,
-- measures its delay and stores it in a database.
--
-- Files and the code they model:
--   Base       shared names, tests on numbers, lemmas on lists
--   Midman     midman/reporter.py. Fault: how a call ends (a result or the exception). Connection:
--              Address and Connection, with their equality. Session: Session and check_packet, with
--              midman/prototype.py. Store: the sessions and connections as objects behind references,
--              and the state of Reporter. Reporter: the handlers of the messages. Listener: the
--              thread that reads the pipe, with the retry buffer of midman/pipe.py. Writer: the
--              thread that writes to the database (midman/database.py). System: both threads as
--              steps.
--   Multidict  mitmproxy/coretypes/multidict.py
--   Http       Text: bytes as numbers. Headers: Headers of mitmproxy/http.py. Laws: setting and
--              getting headers. Validate: mitmproxy/net/http/validate.py. Read: the lines of a header
--              block, and Body: the body length and the end of a connection, both in
--              mitmproxy/net/http/http1/read.py. Framing: what validation gives the body length.
--              Assemble: mitmproxy/net/http/http1/assemble.py, and the reading of a response line.
--              RequestLine: the reading of a request line and of whole heads, in
--              mitmproxy/net/http/http1/read.py. ContentType: content types, in
--              mitmproxy/net/http/headers.py, with Charset for the one of a body. Encoding:
--              mitmproxy/net/encoding.py with its cache, and Calls, one after another. Content: the
--              body of Message of mitmproxy/http.py behind its content-encoding, with the cache
--              passed along, and Text: the body as a text. Target: host, port, authority and URL of
--              Request of mitmproxy/http.py, with parse and unparse of mitmproxy/net/http/url.py;
--              Target/ReadBack: the text of a URL that is assigned and read.
--   Proxy      Layer: Layer of mitmproxy/proxy/layer.py, with the commands and events of
--              mitmproxy/proxy/commands.py and mitmproxy/proxy/events.py; Layer/Reference is the code
--              that blocks, to compare with. Next: NextLayer of the same file. Tcp, Udp: TCPLayer and
--              UDPLayer of mitmproxy/proxy/layers/tcp.py and udp.py as layers. Buffer: ReceiveBuffer
--              of mitmproxy/proxy/utils.py. Stream: HttpStream of
--              mitmproxy/proxy/layers/http/__init__.py as a layer, one module for each group of its
--              methods; Messages: the events of mitmproxy/proxy/layers/http/_events.py and what
--              HttpStream uses of mitmproxy/http.py and mitmproxy/net/http/url.py. Stream/Ends is
--              about the hooks it yields, one module for each module of methods, Stream/Cutting about
--              buffered bodies and Stream/Passed and Stream/Relaying about streamed ones. Modes:
--              mitmproxy/proxy/mode_specs.py.
--   Net        Check: mitmproxy/net/check.py. Authority: parse_authority of mitmproxy/net/http/url.py
--              with its pattern, and Hostport: its reading of what hostport writes. ServerSpec:
--              mitmproxy/net/server_spec.py.
--   Io         Tnetstring: the writing half of mitmproxy/io/tnetstring.py, with Format, what the
--              bytes are; Parts and Parse: the reading half, with Parse/Runs, its runs without fuel.
--              Reader: FlowWriter and FlowReader of mitmproxy/io/io.py.
--   Flow       mitmproxy/flow.py: backups, kills and interceptions of a flow, with the field of
--              mitmproxy/connection.py that is not serialized
--
-- How state is modelled. The reporter's objects are shared, so Midman/Store keeps a list of sessions
-- that references index, and every handler takes a store to a store. The two threads are a step
-- relation whose steps are one line of the pipe and one round of the database thread. A layer is the
-- record of its paused generator and its queue; a generator is a tree that yields commands and goes
-- on with a reply, so a generator that yields for ever is not covered. A method of HttpStream is a
-- function to such a tree that takes what follows its return; a reply brings the flow as the addons
-- have changed it, and what check_killed finds among the events that wait. A method of a message or a
-- request (Http/Content, Http/Target) takes the message to the message it leaves, also where it ends
-- in an exception. A callback in the attribute stream of a message may keep a state: it is a function
-- of what it has been given before, which the message keeps (Proxy/Messages), and of the data of the
-- call. It returns chunks and neither raises nor changes the flow.
--
-- Numbers. Python's integers are unbounded, and so are the naturals here. Times are whole
-- microseconds. A line of the pipe is retried at most 20 times, as in the code, and all other loops
-- run over a list; only the digits of a number (Http/Assemble) are written on fuel, which is the
-- number itself, and each round divides it by the base, and tnetstrings are read on fuel, which is
-- their length: a value is as deep and a list as long as its bytes at most. A flow file is read in
-- rounds, one more than its bytes, as each takes a byte at least.
--
-- Parameters, for code outside of the repository: base64 and scapy (the payload of a ciphertext
-- record), math.sqrt (isqrt), the answers of the database server, where a statement and its commit
-- are one step and a call that raises leaves no row (Midman/Store), and the decoding of bytes as
-- UTF-8 (native). What addons decide comes with replies: the flow behind a hook, and the layer that
-- NextLayer goes on with. The layer that HttpStream runs behind CONNECT or an upgrade is a parameter.
-- The codecs idna and utf-8, ipaddress and the digits outside ASCII are a record (Codec of
-- Net/Check), and UTF-8, float and the equality of keys another (Python of Io/Tnetstring/Parse).
-- `int` of a text, mitmproxy_rs and the platform are fields of System (Proxy/Modes). str.lower and
-- the blanks of str.strip are parameters of Http/ContentType. The serialized fields of a connection
-- and the metadata of a flow, with their equality, are parameters of Flow. The state of a flow, the
-- flow of a state and the reading of HAR files are parameters of Io/Reader. The compression libraries
-- and Python's registry of codecs are a record (Codecs of Http/Encoding), and what the patterns of
-- infer_content_encoding find in a body another (Patterns of Http/ContentType/Charset), and urllib's
-- parts of a URL a third (Urllib of Http/Target/Url).
--
-- Not modelled: the opening of pipes, sockets and database connections, logging, the JSON text of the
-- pipe, the addons, user interfaces, content views, TLS and the other protocol layers of the proxy;
-- of HttpStream, the timestamps and the texts of messages that quote a value; of a message, its JSON,
-- cookies and forms; that an AssertionError of TCPLayer or UDPLayer in a replay leaves the rest of
-- the queue (it is told as a command, behind which the layer goes on); the interpreter's limits on
-- recursion and on the digits of an int.
pub mod Flow
pub mod Base
pub mod Net
pub mod Io
pub mod Midman
pub mod Multidict
pub mod Http
pub mod Proxy
