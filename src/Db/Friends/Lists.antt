-- ===== src/Db/Friends/Lists.antt =====
-- The lists that GetFriendList (DHDBCore.cpp) fills.
use dhserver.Base.{
  ℕ, ◌≡◌, refl, ap, ◌∙◌, Bool, true, false, List, [], ◌∷◌, Option, some, arith, ◌==◌, if◌then◌else◌,
  Bool-cases, inl, inr,
}
use dhserver.Base.Outcome.{done, fault}
use dhserver.Db.Text.{c_str, eq_text, eq_text→eq}
use dhserver.Db.{Mysql, DhdbCore, QueryResult, sent, select_friends}
use dhserver.Db.Friends.{
  has_text, insert_text, first_byte, add_friend, add_friends, fill_lists, get_friend_list,
}

-- Entries with a flag and a name, as rows.
abbrev friend_rows : List (List ℕ × List ℕ) → List (List (Option (List ℕ)))
friend_rows [] = []
friend_rows ((flag, name) ∷ es) = (some flag ∷ some name ∷ []) ∷ friend_rows es

abbrev pub friends_result : List (List ℕ × List ℕ) → QueryResult
friends_result es = record { fields = 2; rows = friend_rows es }

-- The names of the entries whose flag begins with the byte `k`.
unfoldable pub with_flag : ℕ → List (List ℕ × List ℕ) → List (List ℕ)
with_flag k [] = []
with_flag k ((flag, name) ∷ es) =
    if first_byte flag == k then c_str name ∷ with_flag k es else with_flag k es

abbrev pub Joins : List (List ℕ) → List (List ℕ) → List (List ℕ) → Type 0
Joins xs ys zs = (x : List ℕ) → has_text x zs ≡ (if has_text x xs then true else has_text x ys)

pub Joins-nil : (xs : List (List ℕ)) → Joins xs [] xs
unfolding has_text
Joins-nil xs x = elim (Bool-cases (has_text x xs)) [ inl e ↦ rw e refl | inr e ↦ rw e refl ]

either_order :
    (e h y : Bool)
    → (if if e then true else h then true else y) ≡ (if h then true else if e then true else y)
either_order true true y = refl
either_order true false y = refl
either_order false h y = refl

-- A name that is in the list already.
known_name :
    (x name : List ℕ) (xs : List (List ℕ)) (y e : Bool)
    → has_text name xs ≡ true
    → eq_text x name ≡ e
    → (if has_text x xs then true else y) ≡ (if has_text x xs then true else if e then true else y)
known_name x name xs y true h z =
    let k : has_text x xs ≡ true = ap (λ n. has_text n xs) (eq_text→eq x name z) ∙ h in rw k refl
known_name x name xs y false h z = refl

-- A name that is put in front of the first list.
pub Joins-insert :
    (name : List ℕ) (xs ys zs : List (List ℕ))
    → Joins (insert_text name xs) ys zs
    → Joins xs (name ∷ ys) zs
unfolding has_text insert_text
Joins-insert name xs ys zs j x = j x ∙ elim (Bool-cases (has_text name xs)) [
  | inl e ↦ rw e (known_name x name xs (has_text x ys) (eq_text x name) e refl)
  | inr e ↦ rw e (either_order (eq_text x name) (has_text x xs) (has_text x ys))
]

add_friends-Sorts :
    (es : List (List ℕ × List ℕ)) (f r : List (List ℕ))
    → (f' r' : List (List ℕ)) × (add_friends (friend_rows es) (f, r) ≡ done (f', r'))
      × Joins f (with_flag b'1' es) f'
      × Joins r (with_flag b'3' es) r'
unfolding add_friends add_friend with_flag
add_friends-Sorts [] f r = (f, r, refl, Joins-nil f, Joins-nil r)
add_friends-Sorts ((flag, name) ∷ es) f r = elim (Bool-cases (first_byte flag == b'3')) [
  | inl e ↦
      let n : first_byte flag == b'1' ≡ false = ground arith in
      rw (e, n)
        (let (f', r', run, a, b) = add_friends-Sorts es f (insert_text (c_str name) r) in
          (f', r', run, a, Joins-insert (c_str name) r (with_flag b'3' es) r' b))
  | inr e ↦ rw e (elim (Bool-cases (first_byte flag == b'1')) [
    | inl n ↦ rw n (
        let (f', r', run, a, b) = add_friends-Sorts es (insert_text (c_str name) f) r in
        (f', r', run, Joins-insert (c_str name) f (with_flag b'1' es) f' a, b))
    | inr n ↦ rw n (add_friends-Sorts es f r)
  ])
]

-- What GetFriendList does on a connection.
fills :
    (my : Mysql) (db : DhdbCore) (id : List ℕ) (es : List (List ℕ × List ℕ))
    (lists lists' : List (List ℕ) × List (List ℕ))
    → db.is_connect ≡ true
    → my.stored (sent db (select_friends id)).queries ≡ some (friends_result es)
    → add_friends (friend_rows es) lists ≡ done lists'
    → get_friend_list my db id lists ≡ done (true, lists', sent db (select_friends id))
unfolding get_friend_list fill_lists
fills my db id es lists lists' c e run =
    ap (λ b. if b then fill_lists my db (select_friends id) lists else fault) c
    ∙ rw (e, fill_lists) (rw run refl)

-- On a connection, where MySQL answers the query of a user's friends with a flag and a name in each
-- row, GetFriendList returns true and has sent this query only. A name is then in the list of friends
-- exactly if it was there or is the name of a row whose flag begins with `1`, and in the list of
-- requests exactly if it was there or is that of a row whose flag begins with `3`.
pub get_friend_list_sorts :
    (my : Mysql) (db : DhdbCore) (id : List ℕ) (es : List (List ℕ × List ℕ)) (f r : List (List ℕ))
    → db.is_connect ≡ true
    → my.stored (sent db (select_friends id)).queries ≡ some (friends_result es)
    → (f' r' : List (List ℕ)) × (get_friend_list my db id (f, r)
        ≡ done (true, (f', r'), sent db (select_friends id)))
      × ((x : List ℕ)
          → has_text x f' ≡ (if has_text x f then true else has_text x (with_flag b'1' es)))
      × ((x : List ℕ)
          → has_text x r' ≡ (if has_text x r then true else has_text x (with_flag b'3' es)))
get_friend_list_sorts my db id es f r c e =
    let (f', r', run, a, b) = add_friends-Sorts es f r in
    (f', r', fills my db id es (f, r) (f', r') c e run, a, b)
