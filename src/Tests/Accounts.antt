-- ===== src/Tests/Accounts.antt =====
-- Runs of DHDBCore.
use dhserver.Base.{ℕ, ◌≡◌, refl, true, false, List, [], ◌∷◌, some, arith, if◌then◌else◌}
use dhserver.Base.Outcome.{done}
use dhserver.Db.Text.{bytes}
use dhserver.Db.{
  Mysql, DhdbCore, QueryResult, sent, select_password, select_identifier, select_friends,
}
use dhserver.Db.Login.{create_new_account, compare_password, get_identifier}
use dhserver.Db.Login.Quotes.{IsPlain, create_new_account_inserts}
use dhserver.Db.Login.Statement.{insertion}
use dhserver.Db.Login.Search.{table, compare_password_compares, cells}
use dhserver.Db.Login.Numbers.{digit, behind, single, get_identifier_reads}
use dhserver.Db.Friends.{get_friend_list, has_text}
use dhserver.Db.Friends.Lists.{friends_result, with_flag, get_friend_list_sorts}

-- A MySQL that takes every query and always gives this result.
abbrev answers : QueryResult → Mysql
answers r = record { fails = λ h q. false; stored = λ h. some r; connects = λ h. false }

abbrev pub online : DhdbCore
online = record { is_connect = true; queries = [] }

abbrev offline : DhdbCore
offline = record { is_connect = false; queries = [] }

-- The names `ann` and `bob`.
abbrev pub ann : List ℕ
ann = bytes "ann"

abbrev pub bob : List ℕ
bob = bytes "bob"

abbrev names : List (List (List ℕ))
names = (ann ∷ []) ∷ (bob ∷ []) ∷ []

create_new_account_inserts_example :
    (query : List ℕ) × (create_new_account (answers (table 1 names)) online ann bob
      ≡ done (true, record online { queries = query ∷ [] }))
    × (insertion query ≡ some (bytes "LOGIN", (bytes "ID", ann) ∷ (bytes "PASSWORD", bob) ∷ []))
create_new_account_inserts_example =
    create_new_account_inserts (answers (table 1 names)) online ann bob refl ann-IsPlain bob-IsPlain
  where
    ann-IsPlain : IsPlain ann
    ann-IsPlain = ground arith

    bob-IsPlain : IsPlain bob
    bob-IsPlain = ground arith

compare_password_compares_example :
    compare_password (answers (table 1 names)) online ann bob
    ≡ done (has_text bob (cells names), sent online (select_password ann))
compare_password_compares_example =
    compare_password_compares (answers (table 1 names)) online ann bob 1 names refl refl
      (refl, (refl, tt))

get_identifier_reads_example :
    get_identifier (answers (single (bytes "42"))) online ann
    ≡ done (some 42, sent online (select_identifier ann))
get_identifier_reads_example =
    get_identifier_reads (answers (single (bytes "42"))) online ann 42 (bytes "42") refl
      (behind 4 2 (bytes "4") (digit 4 (omega arith)) (omega arith)) refl

-- `bob` is a friend, `ann` has asked.
abbrev entries : List (List ℕ × List ℕ)
entries = (bytes "1", bob) ∷ (bytes "3", ann) ∷ []

get_friend_list_sorts_example :
    (f' r' : List (List ℕ)) × (get_friend_list
        (answers (friends_result entries))
        online
        ann
        ([], [])
      ≡ done (true, (f', r'), sent online (select_friends ann)))
    × ((x : List ℕ)
        → has_text x f' ≡ (if has_text x [] then true else has_text x (with_flag b'1' entries)))
    × ((x : List ℕ)
        → has_text x r' ≡ (if has_text x [] then true else has_text x (with_flag b'3' entries)))
get_friend_list_sorts_example =
    get_friend_list_sorts (answers (friends_result entries)) online ann entries [] [] refl refl
