-- ===== src/Db/Login/Quotes.antt =====
-- The user's name and password in the query of CreateNewAccount (DHDBCore.cpp), which stand between
-- quotes and are not escaped.
use dhserver.Base.{
  ℕ, ◌≡◌, ◌≢◌, refl, some, sym, ap, ◌∙◌, true, not, List, [], ◌∷◌, ◌++◌, arith, append_assoc,
  if◌then◌else◌,
}
use dhserver.Base.Outcome.{done, fault}
use dhserver.Db.Text.{bytes, c_str}
use dhserver.Db.{Mysql, DhdbCore, mysql_query, sent, insert_login}
use dhserver.Db.Login.{create_new_account}
use dhserver.Db.Login.Statement
use dhserver.Db.Login.Statement.{skip, word, value, insertion}

-- No zero byte, no quote and no backslash in a text.
abbrev pub IsPlain : List ℕ → Type 0
IsPlain [] = Unit {0}
IsPlain (b ∷ bs) = (b ≢ 0) × (b ≢ 39) × (b ≢ 92) × IsPlain bs

-- A plain text is read as a value.
value-plain : (us text : List ℕ) → IsPlain us → value (us ++ 39 ∷ text) ≡ some (us, text)
unfolding value
value-plain [] text p = refl
value-plain (a ∷ us) text p = ground (arith, value-plain us text)

-- The text is read by mysql_query up to its end.
c_str-append : (us bs : List ℕ) → IsPlain us → c_str (us ++ bs) ≡ us ++ c_str bs
unfolding c_str
c_str-append [] bs p = refl
c_str-append (a ∷ us) bs p = ground (arith, c_str-append us bs)

-- The query with its parts to the right.
abbrev front : List ℕ
front = bytes "INSERT INTO LOGIN (ID,PASSWORD) VALUES ('"

abbrev separator : List ℕ
separator = bytes "', '"

abbrev behind : List ℕ
behind = bytes "')"

abbrev values : List ℕ → List ℕ → List ℕ
values id password = id ++ (separator ++ (password ++ behind))

insert_login-values :
    (id password : List ℕ) → insert_login id password ≡ front ++ values id password
unfolding insert_login
insert_login-values id password =
    ap (λ t. front ++ t)
      (append_assoc (id ++ separator) password behind
        ∙ append_assoc id separator (password ++ behind))

sent_login :
    (id password : List ℕ)
    → IsPlain id
    → IsPlain password
    → c_str (front ++ values id password) ≡ front ++ values id password
unfolding c_str
sent_login id password p q =
    ap (λ t. front ++ t)
      (c_str-append id (separator ++ (password ++ behind)) p
        ∙ ap (λ t. id ++ (separator ++ t)) (c_str-append password behind q))

values_behind :
    (id password : List ℕ)
    → IsPlain id
    → IsPlain password
    → Statement.values (values id password) ≡ some (id, password)
unfolding Statement.values skip
values_behind id password p q =
    rw (value-plain id (bytes ", '" ++ (password ++ behind)) p, value-plain password (bytes ")") q)
      refl

login_read :
    (id password : List ℕ)
    → IsPlain id
    → IsPlain password
    → insertion (front ++ values id password)
      ≡ some (bytes "LOGIN", (bytes "ID", id) ∷ (bytes "PASSWORD", password) ∷ [])
unfolding insertion skip word
login_read id password p q = rw (values_behind id password p q) refl

-- A text with `', '` in it reads as two.
insert_login-shift :
    (a b c : List ℕ) → insert_login (a ++ separator ++ b) c ≡ insert_login a (b ++ separator ++ c)
insert_login-shift a b c =
    insert_login-values (a ++ separator ++ b) c
    ∙ ap (λ t. front ++ t)
        (append_assoc (a ++ separator) b (separator ++ (c ++ behind))
          ∙ append_assoc a separator (b ++ (separator ++ (c ++ behind)))
          ∙ ap (λ t. a ++ (separator ++ t))
              (sym (append_assoc b separator (c ++ behind))
                ∙ sym (append_assoc (b ++ separator) c behind)))
    ∙ sym (insert_login-values a (b ++ separator ++ c))

create_login :
    (my : Mysql) (db : DhdbCore) (id password : List ℕ)
    → db.is_connect ≡ true
    → create_new_account my db id password
      ≡ done (
        not (my.fails db.queries (c_str (insert_login id password))),
        sent db (insert_login id password),
      )
unfolding create_new_account mysql_query
create_login my db id password c = rw c refl

-- On a connection, for a name and a password without zero bytes, quotes and backslashes,
-- CreateNewAccount sends one query and returns true exactly where mysql_query does not fail for it;
-- read as an INSERT statement, the query puts a row into the table LOGIN, with the name in the
-- column ID and the password in the column PASSWORD.
pub create_new_account_inserts :
    (my : Mysql) (db : DhdbCore) (id password : List ℕ)
    → db.is_connect ≡ true
    → IsPlain id
    → IsPlain password
    → (query : List ℕ) × (create_new_account my db id password
        ≡ done (not (my.fails db.queries query), record db { queries = query ∷ db.queries }))
      × (insertion query
          ≡ some (bytes "LOGIN", (bytes "ID", id) ∷ (bytes "PASSWORD", password) ∷ []))
create_new_account_inserts my db id password c p q = (
  c_str (insert_login id password),
  create_login my db id password c,
  ap insertion (ap c_str (insert_login-values id password) ∙ sent_login id password p q)
      ∙ login_read id password p q,
)

-- With `', '` in it a name runs into the password: CreateNewAccount of the name `a', 'b` with the
-- password `c` does what it does for the name `a` with the password `b', 'c`, whatever the texts.
pub create_new_account_confuses :
    (my : Mysql) (db : DhdbCore) (a b c : List ℕ)
    → create_new_account my db (a ++ separator ++ b) c
      ≡ create_new_account my db a (b ++ separator ++ c)
unfolding create_new_account mysql_query
create_new_account_confuses my db a b c =
    ap (λ q. if db.is_connect then done (not (my.fails db.queries (c_str q)), sent db q) else fault)
      (insert_login-shift a b c)
