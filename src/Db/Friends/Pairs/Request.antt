-- ===== src/Db/Friends/Pairs/Request.antt =====
-- FriendRequest (DHDBCore.cpp) on both rows of a pair of users.
use dhserver.Base.{
  ℕ, ◌≡◌, refl, ap, ◌∙◌, Bool, true, false, List, ◌∷◌, none, some, if◌then◌else◌, Bool-cases,
  Option-cases, ap₂, inl, inr,
}
use dhserver.Base.Outcome.{Outcome, done, fault}
use dhserver.Db.Text.{bytes, c_str}
use dhserver.Db.{Mysql, DhdbCore, mysql_query, sent, select_pair, delete_pair, insert_pair}
use dhserver.Db.Friends.{change_both, request_pair, friend_request}
use dhserver.Db.Friends.Pairs.{Row, Keeps, is_there, requested, both, has_pair-is_there}

after_none :
    (ok : Bool) (x y : Row)
    → x ≡ none
    → (if ok then (some (bytes "2"), some (bytes "3")) else (none, y)) ≡ requested ok (x, y)
after_none true none y e = refl
after_none false none y e = refl
after_none ok (some flag) y e = cc

module _ (my : Mysql) (a b : List ℕ) (row other : List (List ℕ) → Row)
    (forth : Keeps my a b row other) (back : Keeps my b a other row) where
  rows : DhdbCore → Row × Row
  rows db = (row db.queries, other db.queries)

  -- MySQL accepts to take the first row back.
  abbrev TakesBack : Type 0
  TakesBack = (h : List (List ℕ)) → my.fails h (c_str (delete_pair a b)) ≡ false

  -- The result of a call, and what it leaves of both rows.
  abbrev Leaves : Outcome (Bool × DhdbCore) → (Bool → Row × Row) → Type 0
  Leaves m after = (ok : Bool) × (db1 : DhdbCore) × (m ≡ done (ok, db1)) × (rows db1 ≡ after ok)

  insert_both :
      (db : DhdbCore)
      → TakesBack
      → row db.queries ≡ none
      → Leaves
          (done (
            change_both my db
              (insert_pair a b (bytes "2"))
              (insert_pair b a (bytes "3"))
              (delete_pair a b)))
          (λ ok. requested ok (rows db))
  unfolding change_both mysql_query rows
  insert_both db takes none_there =
      let h = db.queries in
      let q1 = c_str (insert_pair a b (bytes "2")) in
      let q2 = c_str (insert_pair b a (bytes "3")) in
      let db1 = sent db (insert_pair a b (bytes "2")) in
      let db2 = sent db1 (insert_pair b a (bytes "3")) in
      elim (Bool-cases (my.fails h q1)) [
        | inl e ↦ (
          false,
          db1,
          rw (e, change_both) refl,
          ap₂ both (forth.asked h ∙ rw e none_there) (forth.asked_other h)
              ∙ after_none false (row h) (other h) none_there,
        )
        | inr e ↦ elim (Bool-cases (my.fails (q1 ∷ h) q2)) [
          | inl k ↦ (
            false,
            sent db2 (delete_pair a b),
            rw (e, change_both) (rw (k, change_both) refl),
            ap₂ both (forth.deleted (q2 ∷ q1 ∷ h) ∙ rw (takes (q2 ∷ q1 ∷ h)) refl) (
                  forth.deleted_other (q2 ∷ q1 ∷ h)
                  ∙ (back.waits (q1 ∷ h) ∙ rw k (forth.asked_other h)))
                ∙ after_none false (row h) (other h) none_there,
          )
          | inr k ↦ (
            true,
            db2,
            rw (e, change_both) (rw (k, change_both) refl),
            ap₂ both (back.waits_other (q1 ∷ h) ∙ (forth.asked h ∙ rw e refl))
                  (back.waits (q1 ∷ h) ∙ rw k refl)
                ∙ after_none true (row h) (other h) none_there,
          )
        ]
      ]

  on_line :
      (db : DhdbCore) → db.is_connect ≡ true → friend_request my db a b ≡ request_pair my db a b
  unfolding friend_request
  on_line db c = ap (λ t. if t then request_pair my db a b else fault) c

  -- On a connection, where MySQL keeps both rows of the pair and accepts to take the first one back:
  -- FriendRequest returns, and leaves what there was, a success, if the first row was there; where it
  -- was not, it leaves both rows as those of a request if it reports a success, and what there was if
  -- it reports a failure, whichever query failed.
  pub friend_request_leaves :
      (db : DhdbCore)
      → ((h : List (List ℕ)) → my.fails h (c_str (delete_pair a b)) ≡ false)
      → db.is_connect ≡ true
      → (ok : Bool) × (db1 : DhdbCore) × (friend_request my db a b ≡ done (ok, db1))
        × (both (row db1.queries) (other db1.queries)
            ≡ requested ok (both (row db.queries) (other db.queries)))
        × ((if is_there (row db.queries) then ok else true) ≡ true)
  unfolding rows request_pair
  friend_request_leaves db takes c = elim (Option-cases (row db.queries)) [
    | inl e ↦
        let db0 = sent db (select_pair a b) in
        let (ok, db1, run, left) = insert_both db0 takes (forth.kept db.queries ∙ e) in
        (
          ok,
          db1,
          on_line db c ∙ rw (has_pair-is_there my a b row other forth db, request_pair) (rw e run),
          left ∙ ap (requested ok) (ap₂ both (forth.kept db.queries) (forth.kept_other db.queries)),
          rw e refl,
        )
    | inr (flag, e) ↦ (
      true,
      sent db (select_pair a b),
      on_line db c ∙ rw (has_pair-is_there my a b row other forth db, request_pair) (rw e refl),
      ap₂ both (forth.kept db.queries) (forth.kept_other db.queries) ∙ rw e refl,
      rw e refl,
    )
  ]
