-- ===== src/DhNetWorkApi.antt =====
-- DHNetworkAPI/DHNetworkAPI/DHNetWorkAPI.h and DHNetWorkAPI.cpp: the class that a program uses. It
-- makes a DHNetWork and passes the calls on to it.
pub mod Ended
use dhserver.Base.{ℕ, Bool, false, List}
use dhserver.Base.Outcome.{Outcome, done, fault, ◌>>=◌}
use dhserver.Shared.{Overlapped, Message}
use dhserver.Server.{Os}
use dhserver.DhNetWork.{DhNetWork, new_dh_net_work}
use dhserver.DhNetWork

-- Set_NetWork: null, an object, or what is left of the pointer once the object is deleted.
pub data NetWorkPtr : Type 0 where
  null dangling : NetWorkPtr
  live : DhNetWork → NetWorkPtr

-- DHNetWork_Name
pub data DhNetWorkName : Type 0 where
  dh_net : DhNetWorkName

-- DHNetWorkAPI::DHNetWorkAPI
unfoldable pub new_api : NetWorkPtr
new_api = null

-- A call through Set_NetWork.
unfoldable pub pass_on :
    NetWorkPtr → (DhNetWork → Outcome (ℕ × DhNetWork)) → Outcome (ℕ × NetWorkPtr)
pass_on (live f) call = call f >>= λ (r, f1). done (r, live f1)
pass_on _ call = fault

-- Recv
unfoldable pub recv : NetWorkPtr → List Message → Outcome (ℕ × List Message × NetWorkPtr)
recv (live f) out = DhNetWork.recv f out >>= λ (r, o, f1). done (r, o, live f1)
recv _ out = fault

-- Send
unfoldable pub send : NetWorkPtr → List ℕ → ℕ → ℕ → Outcome (ℕ × NetWorkPtr)
unfolding pass_on
send api packet send_type socket = pass_on api λ f. DhNetWork.send f packet send_type socket

-- Connect
unfoldable pub connect : (ℕ → Overlapped) → NetWorkPtr → ℕ → List ℕ → Outcome (ℕ × NetWorkPtr)
unfolding pass_on
connect memory api port ip = pass_on api λ f. DhNetWork.connect memory f port ip

-- Initialize: a new object, whatever Set_NetWork was.
unfoldable pub initialize : NetWorkPtr → DhNetWorkName → ℕ → ℕ × NetWorkPtr
initialize api dh_net option =
    let (r, f) = DhNetWork.initialize new_dh_net_work option in (r, live f)

-- Accept
unfoldable pub accept :
    Os
    → ℕ
    → (ℕ → Overlapped)
    → NetWorkPtr
    → (max_user_count work_thread_count : ℕ) → Outcome (ℕ × NetWorkPtr)
unfolding pass_on
accept os fuel memory api users threads =
    pass_on api λ f. DhNetWork.accept os fuel memory f users threads

-- Disconnect
unfoldable pub disconnect : Os → NetWorkPtr → ℕ → Outcome (ℕ × NetWorkPtr)
unfolding pass_on
disconnect os api socket = pass_on api λ f. DhNetWork.disconnect os f socket

-- End. The interface that Set_NetWork points to declares no virtual destructor, so that `delete` is
-- taken to free the object and to do nothing else.
unfoldable pub end : NetWorkPtr → Outcome (ℕ × NetWorkPtr)
end null = done (1, null)
end (live f) = DhNetWork.end f >>= λ (r, f1). done (1, dangling)
end dangling = fault

-- DHNetWorkAPI::~DHNetWorkAPI
unfoldable pub destruct : NetWorkPtr → Outcome (ℕ × NetWorkPtr)
unfolding end
destruct api = end api
