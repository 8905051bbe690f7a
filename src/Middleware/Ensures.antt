-- ===== src/Middleware/Ensures.antt =====
-- What the middleware ensures of the response.
use ficmart_payment_gateway.Prelude.{
  ℕ, String, ◌≡◌, refl, sym, subst, ◌∙◌, ap, Option, none, some, List, [], ◌∷◌, arith,
}
use ficmart_payment_gateway.Middleware.{
  Writer, Act, set, status, chunk, act, act_all, returned, panicked, Run,
}
use ficmart_payment_gateway.Middleware.Deadline.{
  Phase, selecting, answering, timed_out, left_alone, served, panicking, Race, act_timed, IsOpen,
  Step, handling, expire_silent, expire_started, cancel, answer, answer_end, hand_over, fall, Reach,
  begun, later,
}

-- The calls without those of the header map.
abbrev pub without_header : List Act → List Act
without_header [] = []
without_header (set name value ∷ rest) = without_header rest
without_header (status code ∷ rest) = status code ∷ without_header rest
without_header (chunk text ∷ rest) = chunk text ∷ without_header rest

-- The status that a run sends on a fresh writer.
abbrev pub first_status : List Act → Option ℕ
first_status [] = none
first_status (set name value ∷ rest) = first_status rest
first_status (status code ∷ rest) = some code
first_status (chunk text ∷ rest) = some 200

-- Nobody but the handler has written.
abbrev pub IsAlone : Phase → Type 0
IsAlone selecting = Unit
IsAlone served = Unit
IsAlone _ = ⊥

pub record Passed (w : Writer) (run : Run) (s : Race) : Type 0 where
  alone :
      IsAlone s.phase
      → act_all (without_header run.acts) w ≡ act_all (without_header s.todo) s.writer
  pub same_end : s.end ≡ run.end
  pub over : s.phase ≡ served → (s.todo ≡ []) × (s.end ≡ returned)
  pub fell : (value : String) → s.phase ≡ panicking value → s.end ≡ panicked value

act_timed_writer :
    (a : Act) (rest : List Act) (s : Race)
    → act_all (without_header (a ∷ rest)) s.writer
      ≡ act_all (without_header rest) (act_timed a s).writer
act_timed_writer (set name value) rest s = refl
act_timed_writer (status code) rest s = refl
act_timed_writer (chunk text) rest s = refl

act_timed_phase : (a : Act) (s : Race) → (act_timed a s).phase ≡ s.phase
act_timed_phase (set name value) s = refl
act_timed_phase (status code) s = refl
act_timed_phase (chunk text) s = refl

act_timed_todo : (a : Act) (s : Race) → (act_timed a s).todo ≡ s.todo
act_timed_todo (set name value) s = refl
act_timed_todo (status code) s = refl
act_timed_todo (chunk text) s = refl

act_timed_end : (a : Act) (s : Race) → (act_timed a s).end ≡ s.end
act_timed_end (set name value) s = refl
act_timed_end (status code) s = refl
act_timed_end (chunk text) s = refl

handling-Passed :
    (w : Writer) (run : Run) (s : Race) (a : Act) (rest : List Act)
    → s.todo ≡ a ∷ rest
    → IsOpen s.phase
    → Passed w run s
    → Passed w run (act_timed a (record s { todo = rest }))
handling-Passed w run s a rest same opened h =
    let t = record s { todo = rest } in
    record {
      alone = λ al.
          h.alone (subst IsAlone (act_timed_phase a t) al)
          ∙ ap (λ x. act_all (without_header x) s.writer) same
          ∙ act_timed_writer a rest t
          ∙ ap (λ x. act_all (without_header x) (act_timed a t).writer) (sym (act_timed_todo a t));
      same_end = act_timed_end a t ∙ h.same_end;
      over = λ e. absurd (subst IsOpen (sym (act_timed_phase a t) ∙ e) opened);
      fell = λ v e. absurd (subst IsOpen (sym (act_timed_phase a t) ∙ e) opened);
    }

abbrev IsAway : Phase → Type 0
IsAway (answering rest) = Unit
IsAway timed_out = Unit
IsAway left_alone = Unit
IsAway _ = ⊥

away_not_alone : (p : Phase) → IsAway p → IsAlone p → ⊥
away_not_alone (answering rest) a al = al
away_not_alone timed_out a al = al
away_not_alone left_alone a al = al
away_not_alone selecting a al = a
away_not_alone served a al = a
away_not_alone (panicking value) a al = a

-- The waiting goroutine has gone elsewhere.
away-Passed :
    (w wr : Writer) (run : Run) (s : Race) (p : Phase)
    → IsAway p
    → Passed w run s
    → Passed w run (record s { writer = wr; phase = p })
away-Passed w wr run s p away h = record {
  alone = λ al. absurd (away_not_alone p away al);
  same_end = h.same_end;
  over = λ e. absurd (subst IsAway e away);
  fell = λ v e. absurd (subst IsAway e away);
}

Step-Passed :
    {late : List Act} {w : Writer} {run : Run} {s t : Race}
    → Step late s t
    → Passed w run s
    → Passed w run t
Step-Passed {w = w} {run = run} {s = s} (handling a rest same opened) h =
    handling-Passed w run s a rest same opened h
Step-Passed {s = s} (expire_silent at code) h = away-Passed _ s.writer _ s _ tt h
Step-Passed {s = s} (expire_started at code) h = away-Passed _ s.writer _ s _ tt h
Step-Passed {s = s} (cancel at) h = away-Passed _ s.writer _ s _ tt h
Step-Passed {s = s} (answer a rest at) h = away-Passed _ (act a s.writer) _ s _ tt h
Step-Passed {s = s} (answer_end at) h = away-Passed _ s.writer _ s _ tt h
Step-Passed (hand_over at todo end) h = record {
  alone = λ al. h.alone (subst IsAlone (sym at) tt);
  same_end = h.same_end;
  over = λ e. (todo, end);
  fell = λ v e. ground (arith, e);
}
Step-Passed (fall value at todo end) h = record {
  alone = λ al. absurd al;
  same_end = h.same_end;
  over = λ e. ground (arith, e);
  fell = λ v e. let same : value ≡ v = cc in end ∙ ap panicked same;
}

pub Reach-Passed :
    {late : List Act} {w : Writer} {run : Run} {s : Race} → Reach late w run s → Passed w run s
Reach-Passed begun = record {
  alone = λ al. refl;
  same_end = refl;
  over = λ e. ground (arith, e);
  fell = λ v e. ground (arith, e);
}
Reach-Passed (later r t) = Step-Passed t (Reach-Passed r)

-- Timeout, for any interleaving: when it has returned because the handler had finished, the
-- handler had returned, and the response is what the handler does to the server's writer without
-- its calls on the header map, which do not reach it.
pub served_without_header :
    {late : List Act} {w : Writer} {run : Run} {s : Race}
    → Reach late w run s
    → s.phase ≡ served
    → (s.writer ≡ act_all (without_header run.acts) w) × (run.end ≡ returned)
served_without_header {w = w} {run = run} {s = s} r e =
    let h = Reach-Passed r in
    let (todo, end) = h.over e in
    (
      sym (h.alone (subst IsAlone (sym e) tt) ∙ ap (λ x. act_all (without_header x) s.writer) todo),
      sym h.same_end ∙ end,
    )
