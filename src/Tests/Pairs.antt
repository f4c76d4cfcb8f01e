-- ===== src/Tests/Pairs.antt =====
-- Runs of the friends of DHDBCore on a MySQL that keeps two rows.
use dhserver.Base.{
  ℕ, ◌≡◌, ◌⊎◌, refl, Bool, true, false, List, [], ◌∷◌, none, some, if◌then◌else◌, length, ◌==◌,
}
use dhserver.Base.Outcome.{done}
use dhserver.Db.Text.{bytes, c_str, eq_text}
use dhserver.Db.{Mysql, DhdbCore, QueryResult, select_pair, delete_pair, accept_pair, insert_pair}
use dhserver.Db
use dhserver.Db.Friends.{friend_request, friend_accept}
use dhserver.Db.Friends.Pairs.{Row, Keeps, is_there, marked, requested, both}
use dhserver.Db.Friends.Pairs.Request.{friend_request_leaves}
use dhserver.Db.Friends.Pairs.Accept.{friend_accept_leaves}
use dhserver.Tests.Accounts.{ann, bob, online}

-- The row of two users behind some queries, newest first, none of which failed.
unfoldable row_of : List ℕ → List ℕ → List (List ℕ) → Row
row_of x y [] = none
row_of x y (q ∷ h) =
    let before = row_of x y h in
    if eq_text q (c_str (insert_pair x y (bytes "2")))
    then some (bytes "2")
    else if eq_text q (c_str (insert_pair x y (bytes "3")))
    then some (bytes "3")
    else if eq_text q (c_str (accept_pair x y))
    then marked before
    else if eq_text q (c_str (delete_pair x y))
    then none
    else before

abbrev rows_of : Row → QueryResult
rows_of none = record { fields = 3; rows = [] }
rows_of (some flag) = record { fields = 3; rows = (some flag ∷ []) ∷ [] }

-- What the select of a pair gives, behind the queries `h`.
abbrev result_of : List (List ℕ) → QueryResult
result_of [] = rows_of none
result_of (q ∷ h) =
    if eq_text q (c_str (select_pair ann bob))
    then rows_of (row_of ann bob h)
    else rows_of (row_of bob ann h)

abbrev two_rows : Mysql
two_rows = record { fails = λ h q. false; stored = λ h. some (result_of h); connects = λ h. false }

counted : (r : Row) → (if length (rows_of r).rows == 0 then false else true) ≡ is_there r
counted none = refl
counted (some flag) = refl

forth : Keeps two_rows ann bob (row_of ann bob) (row_of bob ann)
unfolding row_of eq_text c_str select_pair delete_pair accept_pair insert_pair Db.pair
forth = record {
  result = λ h. rows_of (row_of ann bob h);
  stored = λ h. refl;
  selected = λ h. counted (row_of ann bob h);
  kept = λ h. refl;
  kept_other = λ h. refl;
  asked = λ h. refl;
  asked_other = λ h. refl;
  waits = λ h. refl;
  waits_other = λ h. refl;
  accepted = λ h. refl;
  accepted_other = λ h. refl;
  deleted = λ h. refl;
  deleted_other = λ h. refl;
}

back : Keeps two_rows bob ann (row_of bob ann) (row_of ann bob)
unfolding row_of eq_text c_str select_pair delete_pair accept_pair insert_pair Db.pair
back = record {
  result = λ h. rows_of (row_of bob ann h);
  stored = λ h. refl;
  selected = λ h. counted (row_of bob ann h);
  kept = λ h. refl;
  kept_other = λ h. refl;
  asked = λ h. refl;
  asked_other = λ h. refl;
  waits = λ h. refl;
  waits_other = λ h. refl;
  accepted = λ h. refl;
  accepted_other = λ h. refl;
  deleted = λ h. refl;
  deleted_other = λ h. refl;
}

friend_request_leaves_example :
    (ok : Bool) × (db1 : DhdbCore) × (friend_request two_rows online ann bob ≡ done (ok, db1))
    × (both (row_of ann bob db1.queries) (row_of bob ann db1.queries)
        ≡ requested ok (both none none))
    × ((if false then ok else true) ≡ true)
unfolding row_of
friend_request_leaves_example =
    friend_request_leaves two_rows ann bob (row_of ann bob) (row_of bob ann) forth back online
      (λ h. refl) refl

-- Behind a request of ann to bob.
abbrev asked : DhdbCore
asked = record {
  is_connect = true;
  queries = c_str (insert_pair bob ann (bytes "3")) ∷ c_str (insert_pair ann bob (bytes "2")) ∷ [];
}

friend_accept_leaves_example :
    (ok : Bool) × (db1 : DhdbCore) × (friend_accept two_rows asked bob ann true ≡ done (ok, db1))
    × (if ok
        then (both (row_of bob ann db1.queries) (row_of ann bob db1.queries)
            ≡ both (marked (row_of bob ann asked.queries)) (marked (row_of ann bob asked.queries)))
        else ((both (row_of bob ann db1.queries) (row_of ann bob db1.queries)
              ≡ both (row_of bob ann asked.queries) (row_of ann bob asked.queries))
            ⊎ ((is_there (row_of bob ann asked.queries) ≡ true)
                × (both (row_of bob ann db1.queries) (row_of ann bob db1.queries)
                    ≡ both none (row_of ann bob asked.queries)))))
friend_accept_leaves_example =
    friend_accept_leaves two_rows bob ann (row_of bob ann) (row_of ann bob) back forth asked
      (λ h. refl) refl
