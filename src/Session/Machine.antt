-- ===== src/Session/Machine.antt =====
-- session.go: a session that several goroutines use, as steps of its critical sections.
use monty_go.Common.{ℕ, ◌≡◌, ◌≢◌, List, [], ◌∷◌, ◌++◌, Bytes, Bool, false, Option, none}
use monty_go.Wire.Proto.{Protowire}
use monty_go.Requests.{Request}
use monty_go.Session.{Session, Progress, gives, waits}
use monty_go.Session.Exchange.{Reply}
use monty_go.Session.Advance.{Clock}
use monty_go.Session.Operations.{
  Called, begin_feed, begin_resume, begin_close, snapshot_dump, dump, install_dependencies,
  finish_feed, finish_resume,
}
use monty_go.Session.Load.{load}

-- A goroutine between the two sections of a turn, with the run that it drives.
pub data Turn : Type 0 where
  feed_turn : ℕ → Turn
  resume_turn : ℕ → Turn

-- `begun` are the suspensions that were answered: a run and the step at which it was suspended.
pub record System : Type 0 where
  pub session : Session
  pub turns : List Turn
  pub begun : List (ℕ × ℕ)

abbrev pub system : Session → List Turn → List (ℕ × ℕ) → System
system s turns begun = record { session = s; turns = turns; begun = begun }

-- A session that `Checkout` has made: nothing has run.
pub record IsFresh (s : Session) : Type 0 where
  pub is_open : s.closed ≡ false
  pub unused : s.used ≡ false
  pub no_turn : s.in_turn ≡ false
  pub no_pending : s.pending ≡ none
  pub no_runs : s.runs ≡ []

module _ ⦃w : Protowire⦄ (clock : Clock) where
  -- A call that is refused at once leaves the session alone and is no step. A section that waits
  -- for the worker is not over.
  pub data Step (x : System) : System → Type 0 where
    feed_begins :
        (n : ℕ) {c : Called ℕ}
        → begin_feed x.session ≡ c
        → c.answer ≡ gives n
        → Step x (system c.session (feed_turn n ∷ x.turns) x.begun)
    feed_ends :
        (n : ℕ) (before after : List Turn) (req : Request) (replies : List Reply)
        {c : Called Progress}
        → x.turns ≡ before ++ (feed_turn n ∷ after)
        → finish_feed clock x.session n req replies ≡ c
        → c.answer ≢ waits
        → Step x (system c.session (before ++ after) x.begun)
    resume_begins :
        (n step : ℕ) {c : Called (Unit {0})}
        → begin_resume x.session n step ≡ c
        → c.answer ≡ gives tt
        → Step x (system c.session (resume_turn n ∷ x.turns) ((n, step) ∷ x.begun))
    resume_ends :
        (n : ℕ) (before after : List Turn) (req : Request) (replies : List Reply)
        {c : Called Progress}
        → x.turns ≡ before ++ (resume_turn n ∷ after)
        → finish_resume clock x.session n req replies ≡ c
        → c.answer ≢ waits
        → Step x (system c.session (before ++ after) x.begun)
    closes :
        (b : Bool) {c : Called Bool}
        → begin_close x.session ≡ c
        → c.answer ≡ gives b
        → Step x (system c.session x.turns x.begun)
    dumps_snapshot :
        {c : Called Bytes} (n step : ℕ) (replies : List Reply)
        → snapshot_dump x.session n step replies ≡ c
        → c.answer ≢ waits
        → Step x (system c.session x.turns x.begun)
    dumps :
        {c : Called Bytes} (replies : List Reply)
        → dump x.session replies ≡ c
        → c.answer ≢ waits
        → Step x (system c.session x.turns x.begun)
    installs :
        {c : Called (Unit {0})} (requirements : List Bytes) (replies : List Reply)
        → install_dependencies x.session requirements replies ≡ c
        → c.answer ≢ waits
        → Step x (system c.session x.turns x.begun)
    loads :
        {c : Called (Option Progress)} (dumped : Bytes) (replies : List Reply)
        → load clock x.session dumped replies ≡ c
        → c.answer ≢ waits
        → Step x (system c.session x.turns x.begun)

  pub data Reach (s : Session) : System → Type 0 where
    starts : Reach s (system s [] [])
    later : {x y : System} → Reach s x → Step x y → Reach s y
