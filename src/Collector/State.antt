-- ===== src/Collector/State.antt =====
-- The state of a session of internal/serve/run.go, with what it writes: the audit log and the stored
-- results (internal/serve/audit.go), the envelopes it posts, and the reads that it runs. An action
-- may fail, which ends the session; what it did before stays done.
use aken.Base.{ℕ, Bool, true, false, Option, none, some, List, String, Bytes, if◌then◌else◌}
use aken.Protocol.Jobs.{Job}
use aken.Protocol.Envelope.{Envelope}
pub use aken.Source.Scope.{Files}

-- Texts of errors: fixed ones, and those that name what the scope lacks.
pub data Message : Type 0 where
  text : String → Message
  outside_scope : Bytes → Message
  restart_with_allow : Bytes → Message
  cannot_add : Bytes → String → Message

-- preparedJob, without the parameters that only `execute` reads.
pub record PreparedJob : Type 0 where
  pub job : Job
  pub paths : List Bytes
  pub target : Bytes
  pub widening : Bool
  pub cursor : Bytes

-- Result, without the counts by category. An error is its text, or none for "".
pub record JobResult : Type 0 where
  pub id : Bytes
  pub status : String
  pub error : Option Message
  pub lines : List Bytes
  pub next : Bytes
  pub lines_redacted : ℕ
  pub flags : ℕ

pub record Flag : Type 0 where
  pub line : ℕ
  pub value : Bytes
  pub id_shaped : Bool

-- An entry of the log: its fields come from the prepared job and, where there is one, the result.
pub record AuditEvent : Type 0 where
  pub seq : ℕ
  pub prepared : PreparedJob
  pub event : String
  pub result : Option JobResult

-- The fields that change, with the level of the options.
pub record Session : Type 0 where
  pub level : ℕ
  pub files : Files
  pub next_job : ℕ
  pub next_result : ℕ
  pub jobs : ℕ
  pub sent : ℕ
  pub denied : ℕ
  pub rejected : ℕ
  -- audit.session.Scope
  pub scope : List Bytes
  pub log : List AuditEvent
  pub results : List (ℕ × JobResult)
  pub posted : List Envelope
  -- The jobs that were run, each with the scope it was run under.
  pub reads : List (PreparedJob × Files)

-- An action's value, or none where it returned an error, and the state after it.
abbrev pub Act : Type 0 → Type 0
Act A = Session → Option A × Session

infixl 5 ◌>>=◌ ◌>>◌
abbrev pub bind : {A B : Type 0} → Option A × Session → (A → Act B) → Option B × Session
bind (none, s) f = (none, s)
bind (some a, s) f = f a s

abbrev pub ◌>>=◌ : {A B : Type 0} → Act A → (A → Act B) → Act B
◌>>=◌ a f s = bind (a s) f

abbrev pub ◌>>◌ : {B : Type 0} → Act (Unit {0}) → Act B → Act B
◌>>◌ a b s = bind (a s) (λ _. b)

abbrev pub pure : {A : Type 0} → A → Act A
pure a s = (some a, s)

abbrev pub fail : {A : Type 0} → Act A
fail s = (none, s)

abbrev pub read_state : {A : Type 0} → (Session → A) → Act A
read_state f s = (some (f s), s)

abbrev pub change : (Session → Session) → Act (Unit {0})
change f s = (some tt, f s)

-- A write that may fail, and then changes nothing.
abbrev pub write : (Session → Bool) → (Session → Session) → Act (Unit {0})
write fails f s = if fails s then (none, s) else (some tt, f s)

-- What an action's end satisfies: `I` after a success, and `E` after an error.
abbrev pub Ends :
    {A : Type 0} → (Session → Type 0) → (Session → Type 0) → Option A × Session → Type 0
Ends I E (none, s) = E s
Ends I E (some a, s) = I s

-- An action that keeps an invariant, and that leaves `E` where it fails.
abbrev pub Keeps : {A : Type 0} → (Session → Type 0) → (Session → Type 0) → Act A → Type 0
Keeps I E a = (s : Session) → I s → Ends I E (a s)

pub Ends-bind :
    {A B : Type 0} (I E : Session → Type 0) (r : Option A × Session) (f : A → Act B)
    → Ends I E r
    → ((a : A) → Keeps I E (f a))
    → Ends I E (bind r f)
Ends-bind I E (none, s) f h k = h
Ends-bind I E (some a, s) f h k = k a s h

-- The same where the first part leaves another property than the second.
pub Ends-then :
    {A B : Type 0} (K I E : Session → Type 0) (r : Option A × Session) (f : A → Act B)
    → Ends K E r
    → ((a : A) (s : Session) → K s → Ends I E (f a s))
    → Ends I E (bind r f)
Ends-then K I E (none, s) f h k = h
Ends-then K I E (some a, s) f h k = k a s h

-- Where success and failure leave one property, the end has it.
pub Ends-same : {A : Type 0} (I : Session → Type 0) (r : Option A × Session) → Ends I I r → I r.1
Ends-same I (none, s) h = h
Ends-same I (some a, s) h = h

pub Keeps-bind :
    {A B : Type 0} (I E : Session → Type 0) (a : Act A) (f : A → Act B)
    → Keeps I E a
    → ((x : A) → Keeps I E (f x))
    → Keeps I E (a >>= f)
Keeps-bind I E a f h k s i = Ends-bind I E (a s) f (h s i) k

pub Keeps-if :
    {A : Type 0} (I E : Session → Type 0) (b : Bool) (x y : Act A)
    → Keeps I E x
    → Keeps I E y
    → Keeps I E (if b then x else y)
Keeps-if I E true x y h k = h
Keeps-if I E false x y h k = k

pub Keeps-fail :
    (A : Type 0) (I E : Session → Type 0) → ((s : Session) → I s → E s) → Keeps I E (fail {A = A})
Keeps-fail A I E weaken s i = weaken s i

pub Keeps-change :
    (I E : Session → Type 0) (f : Session → Session)
    → ((s : Session) → I s → I (f s))
    → Keeps I E (change f)
Keeps-change I E f h s i = h s i

pub Keeps-write :
    (I E : Session → Type 0) (fails : Session → Bool) (f : Session → Session)
    → ((s : Session) → I s → E s)
    → ((s : Session) → I s → I (f s))
    → Keeps I E (write fails f)
Keeps-write I E fails f weaken h s i = go (fails s)
  where
    go : (b : Bool) → Ends {A = Unit {0}} I E (if b then (none, s) else (some tt, f s))
    go true = weaken s i
    go false = h s i
