-- ===== src/Middleware/Deadline.antt =====
-- internal/middleware/timeout.go: the goroutine of the handler and the goroutine that waits for
-- it, interleaved in any order. After the waiting one has returned the response is over.
use ficmart_payment_gateway.Prelude.{ℕ, String, ◌≡◌, ◌≢◌, List, [], ◌∷◌}
use ficmart_payment_gateway.Middleware.{
  Header, set_value, Writer, Act, set, status, chunk, act, write_header, write_body, End, returned,
  panicked, Run,
}

-- Where the waiting goroutine is: at its `select`, inside WriteError with the calls that are left,
-- or at one of its ends.
pub data Phase : Type 0 where
  selecting : Phase
  answering : List Act → Phase
  timed_out : Phase
  left_alone : Phase
  served : Phase
  panicking : String → Phase

-- timeoutWriter with the server's writer that it holds, what the handler has left to do, and the
-- waiting goroutine.
pub record Race : Type 0 where
  pub writer : Writer
  pub h : Header
  pub code : ℕ
  pub todo : List Act
  pub end : End
  pub phase : Phase

abbrev pub start : Writer → Run → Race
start w run = record {
  writer = w;
  h = [];
  code = 0;
  todo = run.acts;
  end = run.end;
  phase = selecting;
}

-- The methods of timeoutWriter.
abbrev pub act_timed : Act → Race → Race
act_timed (set name value) s = record s { h = set_value name value s.h }
act_timed (status code) s = record s { code = code; writer = write_header code s.writer }
act_timed (chunk text) s = record s { writer = write_body text s.writer }

abbrev pub IsOpen : Phase → Type 0
IsOpen selecting = Unit
IsOpen (answering rest) = Unit
IsOpen _ = ⊥

-- A step of either goroutine; `late` is what WriteError does for NewTimeoutError.
pub data Step (late : List Act) (s : Race) : Race → Type 0 where
  handling :
      (a : Act) (rest : List Act)
      → s.todo ≡ a ∷ rest
      → IsOpen s.phase
      → Step late s (act_timed a (record s { todo = rest }))
  expire_silent :
      s.phase ≡ selecting → s.code ≡ 0 → Step late s (record s { phase = answering late })
  expire_started : s.phase ≡ selecting → s.code ≢ 0 → Step late s (record s { phase = left_alone })
  cancel : s.phase ≡ selecting → Step late s (record s { phase = left_alone })
  answer :
      (a : Act) (rest : List Act)
      → s.phase ≡ answering (a ∷ rest)
      → Step late s (record s { writer = act a s.writer; phase = answering rest })
  answer_end : s.phase ≡ answering [] → Step late s (record s { phase = timed_out })
  hand_over :
      s.phase ≡ selecting
      → s.todo ≡ []
      → s.end ≡ returned
      → Step late s (record s { phase = served })
  fall :
      (value : String)
      → s.phase ≡ selecting
      → s.todo ≡ []
      → s.end ≡ panicked value
      → Step late s (record s { phase = panicking value })

pub data Reach (late : List Act) (w : Writer) (run : Run) : Race → Type 0 where
  begun : Reach late w run (start w run)
  later : {s t : Race} → Reach late w run s → Step late s t → Reach late w run t
