-- ===== src/Launcher/Connecting.antt =====
-- LoginLauncher.cpp: the constructor connects to the login server, whose address is in
-- GameLauncher/ImportLibrary/Inc/PortIPDefine.h.
pub mod Connected
use dhserver.Base.{ℕ, List, [], ◌∷◌, some, arith, ◌==◌, if◌then◌else◌}
use dhserver.Base.Outcome.{Outcome, spin, done, ◌>>=◌}
use dhserver.Shared.{Overlapped}
use dhserver.Db.Text.{bytes}
use dhserver.Client.{Client}
use dhserver.DhNetWork.{is_client}
use dhserver.DhNetWorkApi.{NetWorkPtr, live, dh_net, new_api}
use dhserver.DhNetWorkApi

-- LOGIN_SERVER_PORT and SERVER_CONNECT_IP
abbrev pub login_server_port : ℕ
login_server_port = 7000

unfoldable pub server_connect_ip : List ℕ
server_connect_ip = bytes "221.163.91.100"

-- The other threads of the client have left it in this state.
unfoldable pub left_as : Client → NetWorkPtr → NetWorkPtr
left_as c (live f) = live (record f { net_work = some (is_client c) })
left_as c api = api

-- The loop that calls Connect until it succeeds; the clients are the states in which the other threads
-- leave it between two calls. Behind the last of them it goes on to wait.
unfoldable pub connect_loop : (ℕ → Overlapped) → List Client → NetWorkPtr → Outcome NetWorkPtr
unfolding left_as server_connect_ip
connect_loop memory [] api =
    DhNetWorkApi.connect memory api login_server_port server_connect_ip >>= λ (r, api1).
    if r == 0 then spin else done api1
connect_loop memory (c ∷ cs) api =
    DhNetWorkApi.connect memory api login_server_port server_connect_ip >>= λ (r, api1).
    let rest = connect_loop memory cs (left_as c api1) in if r == 0 then rest else done api1

-- The network of a new LoginLauncher.
unfoldable pub connect_login : (ℕ → Overlapped) → List Client → Outcome NetWorkPtr
unfolding connect_loop
connect_login memory states =
    let (r, api) = DhNetWorkApi.initialize new_api dh_net 0 in connect_loop memory states api
