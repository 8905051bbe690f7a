-- ===== src/Middleware/Statuses.antt =====
-- The status of the response under the middleware.
use ficmart_payment_gateway.Prelude.{
  ℕ, ◌≡◌, refl, sym, ◌∙◌, ap, subst, ◌≢◌, ◌⊎◌, inl, inr, Option, none, some, List, [], ◌∷◌, arith,
}
use ficmart_payment_gateway.Middleware.{
  Head, Writer, new_writer, Act, set, status, chunk, act, send_head, Run,
}
use ficmart_payment_gateway.Middleware.Deadline.{
  Phase, selecting, answering, timed_out, left_alone, served, panicking, Race, act_timed, Step,
  handling, expire_silent, expire_started, cancel, answer, answer_end, hand_over, fall, Reach,
  begun, later,
}
use ficmart_payment_gateway.Middleware.Ensures.{first_status}

-- What one call does to the head: nothing, or it sends the first one.
abbrev Moves : List Act → List Act → Option Head → Option Head → Type 0
Moves before after o n =
    ((n ≡ o) × (o ≡ none → first_status before ≡ first_status after))
    ⊎ ((o ≡ none) × ((h : Head) × (n ≡ some h) × (first_status before ≡ some h.status)))

send_head-Moves :
    (code : ℕ) (before after : List Act) (o : Option Head) (w : Writer)
    → first_status before ≡ some code
    → w.head ≡ o
    → Moves before after o (send_head code o w).head
send_head-Moves code before after none w f e =
    inr (refl, (record { status = code; header = w.header }, refl, f))
send_head-Moves code before after (some h) w f e = inl (e, λ n. ground (arith, n))

act-Moves : (a : Act) (rest : List Act) (w : Writer) → Moves (a ∷ rest) rest w.head (act a w).head
act-Moves (set name value) rest w = inl (refl, λ e. refl)
act-Moves (status code) rest w = send_head-Moves code (status code ∷ rest) rest w.head w refl refl
act-Moves (chunk text) rest w = send_head-Moves 200 (chunk text ∷ rest) rest w.head w refl refl

act_timed-Moves :
    (a : Act) (rest : List Act) (s : Race)
    → Moves (a ∷ rest) rest s.writer.head (act_timed a s).writer.head
act_timed-Moves (set name value) rest s = inl (refl, λ e. refl)
act_timed-Moves (status code) rest s = act-Moves (status code) rest s.writer
act_timed-Moves (chunk text) rest s = act-Moves (chunk text) rest s.writer

abbrev pub IsLate : Phase → Type 0
IsLate (answering rest) = Unit
IsLate timed_out = Unit
IsLate _ = ⊥

-- How the head, the handler's remaining calls and the waiting goroutine stand to each other, where
-- `t` is the status of the late answer.
pub record Told (t : ℕ) (acts : List Act) (o : Option Head) (todo : List Act) (p : Phase)
    : Type 0 where
  pub sent :
      (h : Head) → o ≡ some h → ((h.status ≡ t) × IsLate p) ⊎ (first_status acts ≡ some h.status)
  pub ahead : o ≡ none → first_status acts ≡ first_status todo
  pub reply_left : (rest : List Act) → p ≡ answering rest → o ≡ none → first_status rest ≡ some t
  pub ended : p ≡ timed_out → o ≢ none

handled-Told :
    (t : ℕ) (acts : List Act) (o n : Option Head) (before after : List Act) (p : Phase)
    → Moves before after o n
    → Told t acts o before p
    → Told t acts n after p
handled-Told t acts o n before after p (inl (same, f)) h = record {
  sent = λ k e. h.sent k (sym same ∙ e);
  ahead = λ e. h.ahead (sym same ∙ e) ∙ f (sym same ∙ e);
  reply_left = λ rest at e. h.reply_left rest at (sym same ∙ e);
  ended = λ at e. h.ended at (sym same ∙ e);
}
handled-Told t acts o n before after p (inr (empty, (k, now, f))) h = record {
  sent = λ j e. inr (let g = h.ahead empty in ground (arith, now, e, f, g));
  ahead = λ e. ground (arith, now, e);
  reply_left = λ rest at e. ground (arith, now, e);
  ended = λ at e. ground (arith, now, e);
}

answered-Told :
    (t : ℕ) (acts : List Act) (o n : Option Head) (todo : List Act) (a : Act) (rest : List Act)
    → Moves (a ∷ rest) rest o n
    → Told t acts o todo (answering (a ∷ rest))
    → Told t acts n todo (answering rest)
answered-Told t acts o n todo a rest (inl (same, f)) h = record {
  sent = λ k e. h.sent k (sym same ∙ e);
  ahead = λ e. h.ahead (sym same ∙ e);
  reply_left = λ left at e.
      let g = h.reply_left (a ∷ rest) refl (sym same ∙ e) in
      let f' = f (sym same ∙ e) in ground (arith, at, f', g);
  ended = λ at e. ground (arith, at);
}
answered-Told t acts o n todo a rest (inr (empty, (k, now, f))) h = record {
  sent =
      λ j e. inl (let g = h.reply_left (a ∷ rest) refl empty in (ground (arith, now, e, f, g), tt));
  ahead = λ e. ground (arith, now, e);
  reply_left = λ left at e. ground (arith, now, e);
  ended = λ at e. ground (arith, at);
}

-- The fields of the race after a call of the handler.
timed-Told :
    (t : ℕ) (acts : List Act) (a : Act) (s : Race)
    → Told t acts (act_timed a s).writer.head s.todo s.phase
    → let n = act_timed a s in Told t acts n.writer.head n.todo n.phase
timed-Told t acts (set name value) s h = h
timed-Told t acts (status code) s h = h
timed-Told t acts (chunk text) s h = h

-- The waiting goroutine moves on, and not to an answer.
moved-Told :
    (t : ℕ) (acts : List Act) (o : Option Head) (todo : List Act) (p : Phase)
    → ((rest : List Act) → p ≢ answering rest)
    → p ≢ timed_out
    → Told t acts o todo selecting
    → Told t acts o todo p
moved-Told t acts o todo p quiet early h = record {
  sent = λ k e. elim (h.sent k e) [ inl l ↦ absurd l.1 | inr r ↦ inr r ];
  ahead = h.ahead;
  reply_left = λ rest at e. absurd (quiet rest at);
  ended = λ at e. early at;
}

Step-Told :
    {late : List Act} {acts : List Act} {s n : Race} (t : ℕ)
    → first_status late ≡ some t
    → Step late s n
    → Told t acts s.writer.head s.todo s.phase
    → Told t acts n.writer.head n.todo n.phase
Step-Told {acts = acts} {s = s} t f (handling a rest same opened) h =
    timed-Told t acts a (record s { todo = rest })
      (handled-Told t acts s.writer.head _ (a ∷ rest) rest s.phase
        (act_timed-Moves a rest (record s { todo = rest }))
        (subst (λ x. Told t acts s.writer.head x s.phase) same h))
Step-Told {late = late} {acts = acts} {s = s} t f (expire_silent at code) h = record {
  sent = λ k e. elim (h.sent k e) [ inl l ↦ inl (l.0, tt) | inr r ↦ inr r ];
  ahead = h.ahead;
  reply_left = λ rest e empty. let same : late ≡ rest = cc in ap first_status (sym same) ∙ f;
  ended = λ e. ground (arith, e);
}
Step-Told {acts = acts} {s = s} t f (expire_started at code) h =
    moved-Told t acts s.writer.head s.todo left_alone (λ rest e. ground (arith, e))
      (λ e. ground (arith, e)) (subst (Told t acts s.writer.head s.todo) at h)
Step-Told {acts = acts} {s = s} t f (cancel at) h =
    moved-Told t acts s.writer.head s.todo left_alone (λ rest e. ground (arith, e))
      (λ e. ground (arith, e)) (subst (Told t acts s.writer.head s.todo) at h)
Step-Told {acts = acts} {s = s} t f (answer a rest at) h =
    answered-Told t acts s.writer.head _ s.todo a rest (act-Moves a rest s.writer)
      (subst (Told t acts s.writer.head s.todo) at h)
Step-Told {acts = acts} {s = s} t f (answer_end at) h = record {
  sent = λ k e. elim (h.sent k e) [ inl l ↦ inl (l.0, tt) | inr r ↦ inr r ];
  ahead = h.ahead;
  reply_left = λ rest e empty. ground (arith, e);
  ended = λ e empty. let g = h.reply_left [] at empty in ground (arith, g);
}
Step-Told {acts = acts} {s = s} t f (hand_over at todo end) h =
    moved-Told t acts s.writer.head s.todo served (λ rest e. ground (arith, e))
      (λ e. ground (arith, e)) (subst (Told t acts s.writer.head s.todo) at h)
Step-Told {acts = acts} {s = s} t f (fall value at todo end) h =
    moved-Told t acts s.writer.head s.todo (panicking value) (λ rest e. ground (arith, e))
      (λ e. ground (arith, e)) (subst (Told t acts s.writer.head s.todo) at h)

pub Reach-Told :
    {late : List Act} {run : Run} {s : Race} (t : ℕ)
    → first_status late ≡ some t
    → Reach late new_writer run s
    → Told t run.acts s.writer.head s.todo s.phase
Reach-Told t f begun = record {
  sent = λ h e. ground (arith, e);
  ahead = λ e. refl;
  reply_left = λ rest at e. ground (arith, at);
  ended = λ at e. ground (arith, at);
}
Reach-Told t f (later r step) = Step-Told t f step (Reach-Told t f r)
