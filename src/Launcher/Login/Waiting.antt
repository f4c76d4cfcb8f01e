-- ===== src/Launcher/Login/Waiting.antt =====
-- The answers that the dialogs of the launcher wait for (LoginLauncher.cpp, AccountCreate.cpp).
use dhserver.Base.{
  ℕ, ◌≤◌, ◌≡◌, refl, ap, sym, ◌∙◌, false, List, [], ◌∷◌, ◌++◌, Option, none, some, le→ltb,
  append-nil, append_assoc, ◌==◌, length, drop, Bool-cases, Option-cases, inl, inr,
}
use dhserver.Base.Outcome.{Outcome, done, spin, ◌>>=◌}
use dhserver.Shared.{Message, invalid_socket, packet_header_size}
use dhserver.DhNetWorkApi.{NetWorkPtr}
use dhserver.DhNetWorkApi
use dhserver.Launcher.{Toolkit, local_text, login_req, create_user, put_on, post}
use dhserver.Db.Text.{eq_text}
use dhserver.Launcher.Login.{
  AccountCreate, account_button, account_answer, s2c_create_user_res, type_of, find_type, wait_for,
  LoginLauncher, login_answer, login_button, s2c_login_safe_res,
}

-- All messages of some calls of Recv.
abbrev pub concat : List (List Message) → List Message
concat [] = []
concat (msgs ∷ rounds) = msgs ++ concat rounds

-- What the wait for a message ends with.
abbrev pub found : Option Message → Outcome Message
found none = spin
found (some m) = done m

find_type-append :
    (kind : ℕ) (xs ys : List Message) (m : Message)
    → find_type kind xs ≡ some m
    → find_type kind (xs ++ ys) ≡ some m
unfolding find_type
find_type-append kind [] ys m e = cc
find_type-append kind (x ∷ xs) ys m e = elim (Bool-cases (type_of x == kind)) [
  | inl h ↦ rw h (rw h at e)
  | inr h ↦ rw h (find_type-append kind xs ys m (rw h at e))
]

find_type-nothing :
    (kind : ℕ) (xs ys : List Message)
    → find_type kind xs ≡ none
    → find_type kind (xs ++ ys) ≡ find_type kind ys
unfolding find_type
find_type-nothing kind [] ys e = refl
find_type-nothing kind (x ∷ xs) ys e = elim (Bool-cases (type_of x == kind)) [
  | inl h ↦ absurd (some≢none (rw h at e))
  | inr h ↦ rw h (find_type-nothing kind xs ys (rw h at e))
]
  where
    some≢none : {m : Message} → some m ≡ none → ⊥
    some≢none e = cc

-- The loop looks through all of Msg_Vec again after each call, and does not miss an answer.
wait_for-found :
    (kind : ℕ) (rounds : List (List Message)) (msg_vec : List Message)
    → find_type kind msg_vec ≡ none
    → wait_for kind rounds msg_vec ≡ found (find_type kind (msg_vec ++ concat rounds))
unfolding wait_for
wait_for-found kind [] msg_vec e = rw (append-nil, e) refl
wait_for-found kind ([] ∷ rounds) msg_vec e = wait_for-found kind rounds msg_vec e
wait_for-found kind ((m ∷ new) ∷ rounds) msg_vec e =
    elim (Option-cases (find_type kind (msg_vec ++ m ∷ new))) [
      | inl h ↦
          rw (h, wait_for)
            (wait_for-found kind rounds (msg_vec ++ m ∷ new) h
              ∙ ap (λ xs. found (find_type kind xs))
                  (append_assoc msg_vec (m ∷ new) (concat rounds)))
      | inr (answer, h) ↦
          rw (h, wait_for)
            (ap found (
              sym (
                ap (find_type kind) (sym (append_assoc msg_vec (m ∷ new) (concat rounds)))
                ∙ find_type-append kind (msg_vec ++ m ∷ new) (concat rounds) answer h)))
    ]

-- ButtonClicked of LoginLauncher, for a name and a password of at most 20 bytes, with no login result
-- in Msg_Vec and a request that can be sent: it waits for ever if none of the messages received is a
-- login result, and otherwise does what the first of these says, whatever messages came before it and
-- however they were received.
pub login_button_answers :
    (tk : Toolkit) (api api1 : NetWorkPtr) (r : ℕ) (packet : List ℕ) (rounds : List (List Message))
    (d : LoginLauncher)
    → length (local_text tk d.edit_id) ≤ 20
    → length (local_text tk d.edit_password) ≤ 20
    → find_type s2c_login_safe_res d.msg_vec ≡ none
    → put_on tk d.send_buffer (login_req (local_text tk d.edit_id) (local_text tk d.edit_password))
      ≡ done packet
    → DhNetWorkApi.send api packet 0 invalid_socket ≡ done (r, api1)
    → let d1 = record d { send_buffer = drop packet_header_size packet } in
      login_button tk api rounds d ≡ (
        found (find_type s2c_login_safe_res (d.msg_vec ++ concat rounds)) >>= λ m.
        done (api1, login_answer tk (local_text tk d.edit_id) m d1))
unfolding login_button
login_button_answers tk api api1 r packet rounds d l k e p s =
    rw
      (
        le→ltb 20 (length (local_text tk d.edit_password)) k,
        le→ltb 20 (length (local_text tk d.edit_id)) l,
      )
      (rw p (rw s (rw (wait_for-found s2c_login_safe_res rounds d.msg_vec e) refl)))

-- ButtonClicked of AccountCreate, for a name and a password of 1 to 20 bytes and a request that can be
-- sent: it waits for the first answer among the messages received, and does what it says.
pub account_button_answers :
    (tk : Toolkit) (api api1 : NetWorkPtr) (rounds : List (List Message)) (a : AccountCreate)
    → length (local_text tk a.edit_name) ≤ 20
    → length (local_text tk a.edit_password) ≤ 20
    → eq_text (local_text tk a.edit_name) [] ≡ false
    → eq_text (local_text tk a.edit_password) [] ≡ false
    → post tk api (create_user (local_text tk a.edit_name) (local_text tk a.edit_password))
      ≡ done api1
    → account_button tk api rounds a ≡ (
        found (find_type s2c_create_user_res (concat rounds)) >>= λ m.
        done (api1, account_answer m a))
unfolding account_button find_type
account_button_answers tk api api1 rounds a l k n p s =
    rw
      (
        le→ltb 20 (length (local_text tk a.edit_password)) k,
        le→ltb 20 (length (local_text tk a.edit_name)) l,
      )
      (rw (n, p) (rw s (rw (wait_for-found s2c_create_user_res rounds [] refl) refl)))
