-- ===== src/Db/Friends/Pairs/Accept.antt =====
-- FriendAccept (DHDBCore.cpp) on both rows of a pair of users.
use dhserver.Base.{
  ℕ, ◌≡◌, refl, ap, ◌∙◌, Bool, true, false, List, ◌∷◌, none, if◌then◌else◌, Bool-cases, ap₂, inl,
  inr, ◌⊎◌,
}
use dhserver.Base.Outcome.{done}
use dhserver.Db.Text.{c_str}
use dhserver.Db.{Mysql, DhdbCore, mysql_query, sent, select_pair, delete_pair, accept_pair}
use dhserver.Db.Friends.{change_both, accept_request, friend_accept}
use dhserver.Db.Friends.Pairs.{Row, Keeps, is_there, marked, both, has_pair-is_there}

module _ (my : Mysql) (a b : List ℕ) (row other : List (List ℕ) → Row)
    (forth : Keeps my a b row other) (back : Keeps my b a other row) where
  accept_line :
      (db : DhdbCore)
      → db.is_connect ≡ true
      → friend_accept my db a b true ≡ accept_request my db a b
  unfolding friend_accept
  accept_line db c = ap (λ t. if t then accept_request my db a b else done (true, db)) c

  -- On a connection, where MySQL keeps both rows of the pair and accepts to delete the first one:
  -- FriendAccept of a request returns. If it reports a success, both rows that are there have the flag
  -- 1. If it reports a failure, both rows are as before, or the first one, which was there, is lost.
  pub friend_accept_leaves :
      (db : DhdbCore)
      → ((h : List (List ℕ)) → my.fails h (c_str (delete_pair a b)) ≡ false)
      → db.is_connect ≡ true
      → (ok : Bool) × (db1 : DhdbCore) × (friend_accept my db a b true ≡ done (ok, db1))
        × (if ok
            then (both (row db1.queries) (other db1.queries)
                ≡ both (marked (row db.queries)) (marked (other db.queries)))
            else ((both (row db1.queries) (other db1.queries)
                  ≡ both (row db.queries) (other db.queries))
                ⊎ ((is_there (row db.queries) ≡ true)
                    × (both (row db1.queries) (other db1.queries) ≡ both none (other db.queries)))))
  unfolding accept_request change_both mysql_query
  friend_accept_leaves db takes c = elim (Bool-cases (is_there (row db.queries))) [
    | inl e ↦
        let h = c_str (select_pair a b) ∷ db.queries in
        let q1 = c_str (accept_pair a b) in
        let q2 = c_str (accept_pair b a) in
        let db1 = sent (sent db (select_pair a b)) (accept_pair a b) in
        let db2 = sent db1 (accept_pair b a) in
        elim (Bool-cases (my.fails h q1)) [
          | inl j ↦ (
            false,
            db1,
            accept_line db c
                ∙ rw (has_pair-is_there my a b row other forth db, accept_request)
                    (rw e (rw (j, change_both) refl)),
            inl (
                ap₂ both (forth.accepted h ∙ rw j (forth.kept db.queries))
                  (forth.accepted_other h ∙ forth.kept_other db.queries)),
          )
          | inr j ↦ elim (Bool-cases (my.fails (q1 ∷ h) q2)) [
            | inl k ↦ (
              false,
              sent db2 (delete_pair a b),
              accept_line db c
                  ∙ rw (has_pair-is_there my a b row other forth db, accept_request)
                      (rw e (rw (j, change_both) (rw (k, change_both) refl))),
              inr (
                e,
                ap₂ both (forth.deleted (q2 ∷ q1 ∷ h) ∙ rw (takes (q2 ∷ q1 ∷ h)) refl) (
                    forth.deleted_other (q2 ∷ q1 ∷ h)
                    ∙ (back.accepted (q1 ∷ h)
                        ∙ rw k (forth.accepted_other h ∙ forth.kept_other db.queries))),
              ),
            )
            | inr k ↦ (
              true,
              db2,
              accept_line db c
                  ∙ rw (has_pair-is_there my a b row other forth db, accept_request)
                      (rw e (rw (j, change_both) (rw (k, change_both) refl))),
              ap₂ both
                  (back.accepted_other (q1 ∷ h)
                    ∙ (forth.accepted h ∙ rw j (ap marked (forth.kept db.queries))))
                  (back.accepted (q1 ∷ h)
                    ∙ rw k (ap marked (forth.accepted_other h ∙ forth.kept_other db.queries))),
            )
          ]
        ]
    | inr e ↦ (
      false,
      sent db (select_pair a b),
      accept_line db c
          ∙ rw (has_pair-is_there my a b row other forth db, accept_request) (rw e refl),
      inl (ap₂ both (forth.kept db.queries) (forth.kept_other db.queries)),
    )
  ]
