-- ===== src/Launcher/Answer/Posted.antt =====
-- When the launcher (GamePlayLauncher.cpp) sends a request of friendship.
use dhserver.Base.{
  ℕ, ◌≡◌, ◌≢◌, refl, Bool, true, false, List, [], ◌∷◌, arith, ltb, leb, le→leb, ◌&&◌, not,
  if◌then◌else◌, length, Bool-cases, inl, inr,
}
use dhserver.Base.Outcome.{done, ◌>>=◌}
use dhserver.Db.Text.{eq_text}
use dhserver.Db.Friends.{has_text}
use dhserver.DhNetWorkApi.{NetWorkPtr}
use dhserver.Launcher.{Toolkit, local_text, add_friend, post}
use dhserver.Launcher.Answer.{
  Notice, already_friend, handle_first, too_long, no_name, posted, Line, tell,
  push_friend_request_button,
}

-- A name that can be asked: neither a friend's nor that of a request, and of 1 to 20 bytes.
abbrev pub is_askable : List (List ℕ) → List (List ℕ) → List ℕ → Bool
is_askable friends requests id =
    not (has_text id friends)
    && not (has_text id requests)
    && leb (length id) 20
    && leb 1 (length id)

no_text : (id : List ℕ) → eq_text id [] ≡ true → leb 1 (length id) ≡ false
unfolding eq_text
no_text [] d = refl
no_text (b ∷ bs) d = cc

some_text : (id : List ℕ) → eq_text id [] ≡ false → leb 1 (length id) ≡ true
unfolding eq_text
some_text [] d = cc
some_text (b ∷ bs) d = le→leb 1 (length (b ∷ bs)) (omega arith)

-- A push of the button sends a request for the name of the input, and tells that it has been sent,
-- exactly if the name is neither that of a friend nor that of a request which waits and has 1 to 20
-- bytes; otherwise it sends nothing and tells something else.
pub push_friend_request_asks :
    (tk : Toolkit) (api : NetWorkPtr) (user : List ℕ) (friends requests : List (List ℕ))
    (input : List ℕ) (l : Line)
    → let id = local_text tk input in
      if is_askable friends requests id
      then push_friend_request_button tk api user friends requests input l
        ≡ (post tk api (add_friend user id) >>= λ api1. done (api1, tell posted l))
      else ((notice : Notice) × (notice ≢ posted)
          × (push_friend_request_button tk api user friends requests input l
              ≡ done (api, tell notice l)))
unfolding push_friend_request_button
push_friend_request_asks tk api user friends requests input l =
    let id = local_text tk input in
    elim (Bool-cases (has_text id friends)) [
      | inl a ↦ rw a (already_friend, (λ e. cc), refl)
      | inr a ↦ rw a (elim (Bool-cases (has_text id requests)) [
        | inl b ↦ rw b (handle_first, (λ e. cc), refl)
        | inr b ↦ rw b (elim (Bool-cases (ltb 20 (length id))) [
          | inl c ↦ rw (c, too_large id c) (too_long, (λ e. cc), refl)
          | inr c ↦
              rw (c, not_large id c)
                (elim (Bool-cases (eq_text id [])) [
                  | inl d ↦ rw (d, no_text id d) (no_name, (λ e. cc), refl)
                  | inr d ↦ rw (d, some_text id d) refl
                ])
        ])
      ])
    ]
  where
    too_large : (id : List ℕ) → ltb 20 (length id) ≡ true → leb (length id) 20 ≡ false
    too_large id c = ground arith

    not_large : (id : List ℕ) → ltb 20 (length id) ≡ false → leb (length id) 20 ≡ true
    not_large id c = ground arith
