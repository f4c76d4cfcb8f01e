-- ===== src/DhNetWorkApi/Ended.antt =====
-- A DHNetWorkAPI after End (DHNetWorkAPI.cpp): the object is deleted, the pointer stays.
use dhserver.Base.{ℕ, ◌≡◌, refl, ap}
use dhserver.Base.Outcome.{done, fault, Ensures, Ensures-done, Ensures-bind}
use dhserver.DhNetWork.{DhNetWork}
use dhserver.DhNetWork
use dhserver.DhNetWorkApi.{NetWorkPtr, live, dangling, end, destruct}

IsDeleted : ℕ × NetWorkPtr → Type 0
IsDeleted r = r.1 ≡ dangling

end-IsDeleted : (f : DhNetWork) → Ensures IsDeleted (end (live f))
unfolding end IsDeleted
end-IsDeleted f =
    Ensures-bind (λ _. Unit {0}) IsDeleted (DhNetWork.end f) _ (record { result = λ a e. tt })
      λ (r, f1) h. Ensures-done IsDeleted _ refl

-- Once End of a DHNetWorkAPI that was initialized has returned, a second End and the destructor, which
-- calls End, call through the pointer of the object that is deleted.
pub end_then_destructs :
    (f : DhNetWork) (api : NetWorkPtr) (r : ℕ)
    → end (live f) ≡ done (r, api)
    → (end api ≡ fault) × (destruct api ≡ fault)
unfolding end destruct IsDeleted
end_then_destructs f api r e =
    let d = (end-IsDeleted f).result (r, api) e in (ap end d, ap destruct d)
