-- ===== src/Launcher/Login.antt =====
-- LoginLauncher.cpp and AccountCreate.cpp: the dialogs that log in and that make an account.
pub mod Waiting
use dhserver.Base.{
  ℕ, ◌-◌, ◌^◌, Bool, true, false, List, [], ◌∷◌, ◌++◌, Option, none, some, arith, ltb, ◌==◌,
  if◌then◌else◌, ◌||◌, length, drop,
}
use dhserver.Base.Outcome.{Outcome, done, spin, ◌>>=◌}
use dhserver.Shared.{Message, invalid_socket, packet_header_size}
use dhserver.Shared.Bytes.{read_le}
use dhserver.Db.Text.{eq_text}
use dhserver.DhNetWorkApi.{NetWorkPtr}
use dhserver.DhNetWorkApi
use dhserver.Launcher.{Toolkit, local_text, C2s, login_req, create_user, put_on, post}

-- S2C_LOGIN_SAFE_RES and S2C_CREATE_USER_RES
abbrev pub s2c_login_safe_res : ℕ
s2c_login_safe_res = 5502

abbrev pub s2c_create_user_res : ℕ
s2c_create_user_res = 5504

-- Packet_Type and Packet_Buffer of a packet.
unfoldable pub type_of : Message → ℕ
unfolding read_le
type_of m = read_le 2 (drop 8 m.packet)

unfoldable pub buffer_of : Message → List ℕ
buffer_of m = drop packet_header_size m.packet

-- The first message of a type, which the loop over Msg_Vec stops at.
unfoldable pub find_type : ℕ → List Message → Option Message
unfolding type_of
find_type kind [] = none
find_type kind (m ∷ msgs) = if type_of m == kind then some m else find_type kind msgs

-- The endless loop that waits for a packet of a type, for the messages that each Recv puts behind
-- those of Msg_Vec; a Recv without messages fails. Behind the last Recv it goes on to wait.
unfoldable pub wait_for :
    ℕ → (rounds : List (List Message)) → (msg_vec : List Message) → Outcome Message
unfolding find_type
wait_for kind [] msg_vec = spin
wait_for kind ([] ∷ rounds) msg_vec = wait_for kind rounds msg_vec
wait_for kind ((m ∷ new) ∷ rounds) msg_vec =
    let rest = wait_for kind rounds (msg_vec ++ m ∷ new) in
    elim (find_type kind (msg_vec ++ m ∷ new)) [ some answer ↦ done answer | none ↦ rest ]

-- What the dialogs tell, by the literal of the program.
pub data Comment : Type 0 where
  nothing too_long unknown_id wrong_password already_running no_id no_password known_id : Comment

-- LoginLauncher: both inputs and the comment, _User_Key once it is set, Packet_Buffer of
-- m_Send_Packet, Msg_Vec, whether the dialog is hidden, and the user for whom m_PlayLauncher runs.
pub record LoginLauncher : Type 0 where
  pub edit_id : List ℕ
  pub edit_password : List ℕ
  pub comment : Comment
  pub user_key : Option ℕ
  pub send_buffer : List ℕ
  pub msg_vec : List Message
  pub is_hidden : Bool
  pub player : Option (List ℕ)

-- LOGIN_SUCCESS, LOGIN_ID_FAIL, LOGIN_PASSWORD_FAIL, LOGIN_ALREADY_FAIL
abbrev pub login_success : ℕ
login_success = 4

-- The comment for another result; where the result is none of these it stays.
unfoldable pub login_comment : ℕ → Comment → Comment
login_comment result comment =
    if result == 0
    then unknown_id
    else if result == 2
    then wrong_password
    else if result == 8
    then already_running
    else comment

-- What ButtonClicked of LoginLauncher does with the answer of the server.
unfoldable pub login_answer : Toolkit → List ℕ → Message → LoginLauncher → LoginLauncher
unfolding buffer_of login_comment
login_answer tk id m d =
    let (result, key) = tk.read_login_res (buffer_of m) in
    if result == login_success
    then record d { user_key = some key; msg_vec = []; is_hidden = true; player = some id }
    else record d { comment = login_comment result d.comment; msg_vec = [] }

-- ButtonClicked of LoginLauncher
unfoldable pub login_button :
    Toolkit
    → NetWorkPtr
    → (rounds : List (List Message)) → LoginLauncher
    → Outcome (NetWorkPtr × LoginLauncher)
unfolding local_text put_on wait_for login_answer
login_button tk api rounds d =
    let id = local_text tk d.edit_id in
    let password = local_text tk d.edit_password in
    if ltb 20 (length password) || ltb 20 (length id)
    then done (api, record d { comment = too_long })
    else (put_on tk d.send_buffer (login_req id password) >>= λ packet.
        DhNetWorkApi.send api packet 0 invalid_socket >>= λ (r, api1).
        wait_for s2c_login_safe_res rounds d.msg_vec >>= λ m.
        done
          (api1, login_answer tk id m (record d { send_buffer = drop packet_header_size packet })))

-- AccountCreate
pub record AccountCreate : Type 0 where
  pub edit_name : List ℕ
  pub edit_password : List ℕ
  pub comment : Comment
  pub is_hidden : Bool

-- ClearText of AccountCreate, and `hide`; CancleButtonClicked.
unfoldable pub cancle_button : AccountCreate → AccountCreate
cancle_button a = record { edit_name = []; edit_password = []; comment = nothing; is_hidden = true }

-- What ButtonClicked of AccountCreate does with the answer of the server: the first byte of its
-- Packet_Buffer tells whether there is an account now.
unfoldable pub account_answer : Message → AccountCreate → AccountCreate
unfolding buffer_of cancle_button read_le
account_answer m a =
    if read_le 1 (buffer_of m) == 0 then record a { comment = known_id } else cancle_button a

-- ButtonClicked of AccountCreate
unfoldable pub account_button :
    Toolkit
    → NetWorkPtr
    → (rounds : List (List Message)) → AccountCreate
    → Outcome (NetWorkPtr × AccountCreate)
unfolding local_text post wait_for account_answer
account_button tk api rounds a =
    let id = local_text tk a.edit_name in
    let password = local_text tk a.edit_password in
    if ltb 20 (length password) || ltb 20 (length id)
    then done (api, record a { comment = too_long })
    else if eq_text id []
    then done (api, record a { comment = no_id })
    else if eq_text password []
    then done (api, record a { comment = no_password })
    else (post tk api (create_user id password) >>= λ api1.
        wait_for s2c_create_user_res rounds [] >>= λ m. done (api1, account_answer m a))

-- CreateAccountButtonClicked; `exec` is the run of the dialog that makes an account.
unfoldable pub create_account_button :
    (exec : AccountCreate → Outcome AccountCreate)
    → LoginLauncher
    → AccountCreate
    → Outcome (LoginLauncher × AccountCreate)
create_account_button exec d a = exec a >>= λ a1.
    done (record d { edit_id = []; edit_password = []; comment = nothing; is_hidden = false }, a1)
