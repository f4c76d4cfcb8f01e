-- ===== src/Shared.antt =====
-- What server and client share: DHNetWork/DHNetWork/NetWorkDefine.h, DHNetWorkAPIDefine.h and
-- SharedDataStruct.h. Memory is a list of bytes; a pointer to an object is a number.
pub mod Bytes
pub mod Packet
pub mod Reassembly
use dhserver.Base.{
  ℕ, ◌+◌, ◌-◌, ◌*◌, ◌^◌, ◌%◌, Bool, true, false, List, [], ◌∷◌, ◌++◌, Option, none, some, replicate,
  drop,
}

-- SERVER_OVERLAPPED_COUNT
abbrev pub server_overlapped_count : ℕ
server_overlapped_count = 10000

-- CLIENT_OVERLAPPED_COUNT
abbrev pub client_overlapped_count : ℕ
client_overlapped_count = 1000

-- CLIENT_THREAD_COUNT
abbrev pub client_thread_count : ℕ
client_thread_count = 1

-- OVERLAPPED_BUFIZE
abbrev pub overlapped_bufize : ℕ
overlapped_bufize = 2048

-- MAX_PACKET_SIZE
abbrev pub max_packet_size : ℕ
max_packet_size = 20480

-- PACKET_TYPE_NONE
abbrev pub packet_type_none : ℕ
packet_type_none = 0

-- LOGIC_SUCCESS and LOGIC_FAIL
abbrev pub logic_success : ℕ
logic_success = 1

abbrev pub logic_fail : ℕ
logic_fail = 0

-- sizeof(Packet_Header), packed to one byte: a size_t and an unsigned short.
abbrev pub packet_header_size : ℕ
packet_header_size = 10

-- SEND_TYPE_BROADCAST, SEND_TYPE_TARGET and SEND_TYPE_EXCEPT_TARGET
abbrev pub send_type_broadcast : ℕ
send_type_broadcast = 0

abbrev pub send_type_target : ℕ
send_type_target = 1

abbrev pub send_type_except_target : ℕ
send_type_except_target = 2

-- DHDEBUG_SIMPLE
abbrev pub dhdebug_simple : ℕ
dhdebug_simple = 1

-- INVALID_SOCKET is (SOCKET)(~0).
abbrev pub invalid_socket : ℕ
invalid_socket = 2 ^ 64 - 1

-- size_t arithmetic
abbrev pub add_size : ℕ → ℕ → ℕ
add_size a b = (a + b) % 2 ^ 64

-- The increment of a std::atomic<int>, as a bit pattern.
abbrev pub add_int : ℕ → ℕ → ℕ
add_int a b = (a + b) % 2 ^ 32

-- Overlapped_Struct::IOType
pub data IoType : Type 0 where
  accept disconnect recv send none_io : IoType

-- Socket_Struct. `ip` is the text that lies at `IP.c_str()`.
pub record SocketStruct : Type 0 where
  pub socket : ℕ
  pub ip : List ℕ
  pub port : ℕ
  pub is_available : Bool

-- Socket_Struct::Socket_Struct
unfoldable pub new_socket_struct : SocketStruct
new_socket_struct = record { socket = invalid_socket; ip = []; port = 0; is_available = false }

-- Overlapped_Struct, without the fields of WSAOVERLAPPED; `wsabuf_len` is m_WSABUF.len, and
-- m_WSABUF.buf always points to m_Buffer.
pub record Overlapped : Type 0 where
  pub io_type : IoType
  pub socket : ℕ
  pub wsabuf_len : ℕ
  pub data_size : ℕ
  pub buffer : List ℕ
  pub processing_packet_size : ℕ
  pub processing_packet_buffer : List ℕ
  pub processed_packet_size : ℕ

-- ZeroMemory(b, sizeof(OVERLAPPED_BUFIZE)): the macro is an int, so four bytes are cleared.
unfoldable pub zero_int : List ℕ → List ℕ
unfolding replicate
zero_int b = replicate 4 0 ++ drop 4 b

-- The constructor, over the memory that the object is made in.
unfoldable pub construct_overlapped : Overlapped → Overlapped
unfolding zero_int
construct_overlapped o = record {
  io_type = none_io;
  socket = invalid_socket;
  buffer = zero_int o.buffer;
  processing_packet_buffer = zero_int o.processing_packet_buffer;
  data_size = 0;
  processing_packet_size = 0;
  processed_packet_size = 0;
  wsabuf_len = 0;
}

-- The destructor leaves the memory with both buffers' first bytes cleared.
unfoldable pub destruct_overlapped : Overlapped → Overlapped
unfolding zero_int
destruct_overlapped o = record o {
  buffer = zero_int o.buffer;
  processing_packet_buffer = zero_int o.processing_packet_buffer;
}

-- Network_Message: the socket, and the block of the packet.
pub record Message : Type 0 where
  pub socket : ℕ
  pub packet : List ℕ
