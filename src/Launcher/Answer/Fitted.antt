-- ===== src/Launcher/Answer/Fitted.antt =====
-- The place of the list of friends in the launcher (GamePlayLauncher.cpp), which two threads move.
use dhserver.Base.{
  ℕ, zero, suc, ◌+◌, ◌-◌, ◌*◌, ◌%◌, ◌^◌, ◌≡◌, ◌⊎◌, refl, sym, subst, true, false, List, [], ◌∷◌,
  arith, ltb, if◌then◌else◌, Bool-cases, inl, inr,
}
use dhserver.Launcher.Answer.{
  Notice, Line, hide_ui, visible_ui, set_visible_request_result, run_event, start_time, check_line,
  tell, visible_time,
}

-- What happens to the line: a slot tells something, the event loop takes an event, and
-- RecvServerPacket passes at a time.
pub data Event : Type 0 where
  told : Notice → Event
  taken : Event
  passed : (now : ℕ) → Event

abbrev pub handle : Event → Line → Line
handle (told notice) l = tell notice l
handle taken l = run_event l
handle (passed now) l = check_line now l

unfoldable pub handle_all : List Event → Line → Line
handle_all [] l = l
handle_all (e ∷ es) l = handle_all es (handle e l)

-- How often the list has been made lower and not yet higher again.
abbrev pub lowered : Line → ℕ
lowered l = l.waiting_hides + (if l.current_visible_state then 1 else 0)

-- The list of friends is that of a new dialog, lowered `d` times; both numbers have 32 bits.
pub record Fits (height y d : ℕ) : Type 0 where
  pub bottom : (height + 35 * d) % 2 ^ 32 ≡ 531
  pub top : y ≡ (190 + 35 * d) % 2 ^ 32

lower-Fits :
    (height y d : ℕ)
    → Fits height y d
    → Fits ((height + (2 ^ 32 - 35)) % 2 ^ 32) ((y + 35) % 2 ^ 32) (suc d)
lower-Fits height y d f = record { bottom = omega arith; top = omega arith }

raise-Fits :
    (height y d : ℕ)
    → Fits height y (suc d)
    → Fits ((height + 35) % 2 ^ 32) ((y + (2 ^ 32 - 35)) % 2 ^ 32) d
raise-Fits height y d f = record { bottom = omega arith; top = omega arith }

-- The line is shown for a notice.
abbrev pub shown : Notice → Line → Line
shown notice l = record (visible_ui (record l { notice = notice })) { current_visible_state = true }

abbrev IsFitted : Line → Type 0
IsFitted l = Fits l.list_height l.list_start_y (lowered l)

tell-IsFitted : (notice : Notice) (l : Line) → IsFitted l → IsFitted (tell notice l)
unfolding tell set_visible_request_result visible_ui
tell-IsFitted notice l f = elim (Bool-cases l.current_visible_state) [
  | inl e ↦
      let same : tell notice l ≡ record l { notice = notice; is_visible_start = false } =
        rw e refl in
      subst IsFitted (sym same) f
  | inr e ↦
      let same : tell notice l ≡ shown notice l = rw e refl in
      let d : suc (lowered l) ≡ l.waiting_hides + 1 = rw e (omega arith) in
      subst IsFitted (sym same) (
        subst (λ n. Fits (shown notice l).list_height (shown notice l).list_start_y n) d
          (lower-Fits l.list_height l.list_start_y (lowered l) f))
]

run_event-IsFitted : (l : Line) → IsFitted l → IsFitted (run_event l)
unfolding run_event hide_ui
run_event-IsFitted l f = elim (ℕ-cases l.waiting_hides) [
  | inl e ↦ let same : run_event l ≡ l = rw e refl in subst IsFitted (sym same) f
  | inr (n, e) ↦
      let l1 = record l { waiting_hides = n } in
      let same : run_event l ≡ hide_ui l1 = rw e refl in
      let d : lowered l ≡ suc (lowered l1) = omega arith in
      subst IsFitted (sym same) (
        raise-Fits l.list_height l.list_start_y (lowered l1)
          (subst (λ m. Fits l.list_height l.list_start_y m) d f))
]
  where
    ℕ-cases : (n : ℕ) → (n ≡ 0) ⊎ ((m : ℕ) × (n ≡ suc m))
    ℕ-cases zero = inl refl
    ℕ-cases (suc m) = inr (m, refl)

-- RecvServerPacket passes while the line counts as visible.
pass-IsFitted :
    (now : ℕ) (l : Line)
    → l.current_visible_state ≡ true
    → IsFitted l
    → IsFitted (
        if ltb visible_time (now - l.prev_time)
        then set_visible_request_result false (record l { prev_time = now })
        else l)
unfolding set_visible_request_result
pass-IsFitted now l c f = elim (Bool-cases (ltb visible_time (now - l.prev_time))) [
  | inl e ↦
      let d : lowered l ≡ suc l.waiting_hides + 0 = rw c (omega arith) in
      rw e (subst (λ m. Fits l.list_height l.list_start_y m) d f)
  | inr e ↦ rw e f
]

check_line-IsFitted : (now : ℕ) (l : Line) → IsFitted l → IsFitted (check_line now l)
unfolding check_line start_time
check_line-IsFitted now l f = elim (Bool-cases l.current_visible_state) [
  | inl c ↦ elim (Bool-cases l.is_visible_start) [
    | inl e ↦
        let same : check_line now l ≡ (
            if ltb visible_time (now - l.prev_time)
            then set_visible_request_result false (record l { prev_time = now })
            else l) =
          rw c (rw e refl) in
        subst IsFitted (sym same) (pass-IsFitted now l c f)
    | inr e ↦
        let l1 = record l { prev_time = now; is_visible_start = true } in
        let same : check_line now l ≡ (
            if ltb visible_time (now - now)
            then set_visible_request_result false (record l1 { prev_time = now })
            else l1) =
          rw c (rw e refl) in
        subst IsFitted (sym same) (pass-IsFitted now l1 c f)
  ]
  | inr c ↦ let same : check_line now l ≡ l = rw c refl in subst IsFitted (sym same) f
]

handle-IsFitted : (e : Event) (l : Line) → IsFitted l → IsFitted (handle e l)
handle-IsFitted (told notice) l f = tell-IsFitted notice l f
handle-IsFitted taken l f = run_event-IsFitted l f
handle-IsFitted (passed now) l f = check_line-IsFitted now l f

-- Notices told by the slots, calls of HideUI from the event queue and passes of RecvServerPacket keep
-- this in any order: the list of friends is that of a new dialog lowered once for each HideUI that
-- waits, and once more where the line counts as visible.
pub handle_all-Fits :
    (es : List Event) (l : Line)
    → Fits l.list_height l.list_start_y (lowered l)
    → let l1 = handle_all es l in Fits l1.list_height l1.list_start_y (lowered l1)
unfolding handle_all
handle_all-Fits [] l f = f
handle_all-Fits (e ∷ es) l f = handle_all-Fits es (handle e l) (handle-IsFitted e l f)
