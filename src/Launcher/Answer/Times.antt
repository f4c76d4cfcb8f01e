-- ===== src/Launcher/Answer/Times.antt =====
-- How long the launcher (GamePlayLauncher.cpp) shows a notice.
use dhserver.Base.{
  ℕ, suc, ◌+◌, ◌-◌, ◌≤◌, ◌<◌, ◌≡◌, refl, ap, ◌∙◌, true, false, List, [], ◌∷◌, arith, le→ltb, lt→ltb,
}
use dhserver.Launcher.Answer.{
  Notice, Line, visible_ui, hide_ui, set_visible_request_result, run_event, start_time, check_line,
  tell, visible_time,
}

-- RecvServerPacket passes at these times.
unfoldable pub pass_all : List ℕ → Line → Line
pass_all [] l = l
pass_all (t ∷ ts) l = pass_all ts (check_line t l)

-- None of the times is later.
abbrev pub AllUpTo : ℕ → List ℕ → Type 0
AllUpTo u [] = Unit {0}
AllUpTo u (t ∷ ts) = (t ≤ u) × AllUpTo u ts

-- The line shows a notice, and is counted as shown from the time `t`.
abbrev lit : Notice → ℕ → Line → Line
lit notice t l = record (visible_ui (record l { notice = notice })) {
  current_visible_state = true;
  is_visible_start = true;
  prev_time = t;
}

first_pass :
    (notice : Notice) (l : Line) (t : ℕ)
    → l.current_visible_state ≡ false
    → l.is_visible_start ≡ false
    → check_line t (tell notice l) ≡ lit notice t l
unfolding check_line start_time tell set_visible_request_result visible_ui
first_pass notice l t c s = rw c (rw s (rw (le→ltb visible_time (t - t) (omega arith)) refl))

later_passes :
    (notice : Notice) (l : Line) (t : ℕ) (ts : List ℕ)
    → AllUpTo (t + visible_time) ts
    → pass_all ts (lit notice t l) ≡ lit notice t l
unfolding pass_all check_line start_time
later_passes notice l t [] a = refl
later_passes notice l t (u ∷ ts) (h, a) =
    rw (le→ltb visible_time (u - t) (omega arith)) (later_passes notice l t ts a)

-- A notice is told while the line does not count as visible and its time has not been started, as on a
-- new dialog. Then it is shown at the first pass and at all later ones up to Visible_Time behind the
-- first, and at the next pass after that the line does not count as visible any more and one more call
-- of HideUI waits.
pub notice_lasts :
    (notice : Notice) (l : Line) (t u : ℕ) (ts : List ℕ)
    → l.current_visible_state ≡ false
    → l.is_visible_start ≡ false
    → AllUpTo (t + visible_time) ts
    → t + visible_time < u
    → let l1 = pass_all (t ∷ ts) (tell notice l) in
      let l2 = check_line u l1 in
      (l1.is_visible ≡ true)
      × (l1.notice ≡ notice)
      × (l1.current_visible_state ≡ true)
      × (l1.waiting_hides ≡ l.waiting_hides)
      × (l2.current_visible_state ≡ false)
      × (l2.waiting_hides ≡ suc l.waiting_hides)
unfolding pass_all check_line start_time set_visible_request_result visible_ui
notice_lasts notice l t u ts c s a h =
    let lasts : pass_all ts (check_line t (tell notice l)) ≡ lit notice t l =
      ap (pass_all ts) (first_pass notice l t c s) ∙ later_passes notice l t ts a in
    rw lasts (rw (lt→ltb visible_time (u - t) (omega arith)) (refl, refl, refl, refl, refl, refl))

-- The line counts as visible and its time is over, so that a pass at the time `u` takes the notice
-- away, and the dialog hides it. A notice that is told later, and first passed more than Visible_Time
-- behind `u`, is then taken away by this first pass.
pub later_notice_vanishes :
    (notice : Notice) (l : Line) (u v : ℕ)
    → l.current_visible_state ≡ true
    → l.is_visible_start ≡ true
    → l.prev_time + visible_time < u
    → u + visible_time < v
    → let l1 = tell notice (run_event (check_line u l)) in
      let l2 = check_line v l1 in
      (l1.current_visible_state ≡ true)
      × (l2.current_visible_state ≡ false)
      × (l2.waiting_hides ≡ suc l.waiting_hides)
unfolding check_line start_time set_visible_request_result run_event hide_ui tell visible_ui
later_notice_vanishes notice l u v c s h k = rw c (
    rw s (
      rw
        (
          lt→ltb visible_time (u - l.prev_time) (omega arith),
          lt→ltb visible_time (v - u) (omega arith),
        )
        (refl, refl, refl)))
