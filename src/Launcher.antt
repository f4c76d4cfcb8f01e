-- ===== src/Launcher.antt =====
-- GameLauncher/GameLauncher (LoginLauncher, AccountCreate, GamePlayLauncher): what the three dialogs
-- share, the messages to the login server and how a dialog sends one, with
-- GameLauncher/ImportLibrary/Inc/LauncherLoginPacketDefine.h.
pub mod Requests
pub mod Friends
pub mod Answer
pub mod Playing
pub mod Contents
pub mod Login
pub mod Pass
pub mod Posting
pub mod Connecting
use dhserver.Base.{
  ℕ, Bool, true, false, List, [], ◌∷◌, ◌++◌, arith, ltb, if◌then◌else◌, length, drop, replicate,
}
use dhserver.Base.Outcome.{Outcome, done, fault, ◌>>=◌}
use dhserver.Shared.{max_packet_size, invalid_socket}
use dhserver.Shared.Bytes.{write_le}
use dhserver.DhNetWorkApi.{NetWorkPtr}
use dhserver.DhNetWorkApi
use dhserver.Db.Text.{c_str}

-- The tables that FlatBuffers packs for the server.
pub data C2s : Type 0 where
  login_req : (id password : List ℕ) → C2s
  create_user : (id password : List ℕ) → C2s
  add_friend : (my_id friend_id : List ℕ) → C2s
  accept_friend : (my_id friend_id : List ℕ) → Bool → C2s
  play_state : (my_id : List ℕ) → Bool → C2s

-- C2S_LOGIN_SAFE_REQ and the others, as the dialogs put them on the tables.
abbrev pub packet_type : C2s → ℕ
packet_type (login_req id password) = 5001
packet_type (create_user id password) = 5005
packet_type (add_friend my_id friend_id) = 5002
packet_type (accept_friend my_id friend_id b) = 5003
packet_type (play_state my_id b) = 5006

-- ColColorType
pub data ColColorType : Type 0 where
  ingame_green online_blue offline_gray : ColColorType

-- A QTreeWidgetItem below one of the roots of the list of friends: its icon by name, the text and
-- the color of its second column.
pub record Item : Type 0 where
  pub icon : List ℕ
  pub text : List ℕ
  pub color : ColColorType

-- FriendState and FriendRequest of RealTimeData.
pub record RealTimeData : Type 0 where
  pub friend_state : List (List ℕ × ℕ)
  pub friend_request : List (List ℕ)

-- Qt and FlatBuffers. `to_unicode` is QTextCodec::toUnicode, `to_local8bit` QString::toLocal8Bit,
-- `sort_children` QTreeWidgetItem::sortChildren(1, DescendingOrder); `build` gives the bytes of a
-- table, and `read_...` reads one from the Packet_Buffer of a packet.
pub record Toolkit : Type 0 where
  pub to_unicode : List ℕ → List ℕ
  pub to_local8bit : List ℕ → List ℕ
  pub sort_children : List Item → List Item
  pub build : C2s → List ℕ
  pub read_login_res : List ℕ → ℕ × ℕ
  pub read_real_time : List ℕ → RealTimeData

-- ConvertKR of a `const char*`.
unfoldable pub convert_kr : Toolkit → List ℕ → List ℕ
convert_kr tk text = tk.to_unicode (c_str text)

-- `toLocal8Bit().constData()` as a std::string.
unfoldable pub local_text : Toolkit → List ℕ → List ℕ
local_text tk text = c_str (tk.to_local8bit text)

-- Packet_Buffer of a new C2S_Packet.
abbrev pub new_buffer : List ℕ
new_buffer = replicate max_packet_size 0

-- The header is put on a table: Packet_Type, Packet_Size and the memcpy_s, whose bound is the size of
-- the table and not of the buffer, so that a larger table is written behind it.
unfoldable pub put_on : Toolkit → List ℕ → C2s → Outcome (List ℕ)
put_on tk buffer q =
    let table = tk.build q in
    if ltb (length buffer) (length table)
    then fault
    else done (
        write_le 8 (length table)
        ++ (write_le 2 (packet_type q) ++ (table ++ drop (length table) buffer)))

-- A table is packed and sent with `m_Login_NetWork->Send`, whose result is not looked at.
unfoldable pub post : Toolkit → NetWorkPtr → C2s → Outcome NetWorkPtr
unfolding put_on
post tk api q = put_on tk new_buffer q >>= λ packet.
    DhNetWorkApi.send api packet 0 invalid_socket >>= λ (r, api1). done api1
