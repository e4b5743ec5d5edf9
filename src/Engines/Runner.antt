-- ===== src/Engines/Runner.antt =====
-- `_run_job`: the parent's loop over the child, the thread that reads its output, and the response.
-- Times are in one unit, from the start of the process.
use data_analytics_platform.Base.{
  ℕ, ◌+◌, ◌*◌, suc, zero, min, List, [], ◌∷◌, ◌++◌, length, String, Bool, true, false, not, ◌&&◌,
  ◌||◌, Option, none, some, ◌==◌, str_eq, if◌then◌else◌, leb, ltb, Bytes, is_nil,
}

pub record ResourcePolicy : Type 0 where
  pub max_output_bytes : ℕ
  pub quota_remaining_bytes : ℕ
  pub threads : ℕ
  pub memory_limit_bytes : ℕ
  pub max_spill_bytes : ℕ
  pub timeout : ℕ
  pub checkpoint_interval : ℕ
  pub max_columns : ℕ
  pub max_column_name_chars : ℕ
  pub max_rows : ℕ

-- `__post_init__`; no budget is negative here.
abbrev pub is_valid_policy : ResourcePolicy → Bool
is_valid_policy p =
    ltb 0 p.threads
    && (ltb 0 p.memory_limit_bytes
        && (ltb 0 p.timeout
            && (ltb 0 p.checkpoint_interval
                && (ltb 0 p.max_columns && (ltb 0 p.max_column_name_chars && ltb 0 p.max_rows)))))

abbrev pub output_limit_bytes : ResourcePolicy → ℕ
output_limit_bytes p = min p.max_output_bytes p.quota_remaining_bytes

abbrev pub max_request_bytes : ℕ
max_request_bytes = 4 * 1024 * 1024

abbrev pub max_result_bytes : ℕ
max_result_bytes = 2 * 1024 * 1024

-- How an attempt ends: with a response, or with an exception.
pub data Ending (R : Type 0) : Type 0 where
  responded : R → Ending R
  resource_limit capability expansion quota value_error checkpoint_raised start_failed : Ending R

-- What the parent meets in one round: the time as it computes what remains, the exit code of a child
-- that ends within the wait, and after a wait that timed out whether the checkpoint raises, the time,
-- and what the samples show. Without a file of output there is no size.
pub record Round : Type 0 where
  pub before : ℕ
  pub exited : Option ℕ
  pub checkpoint_raises : Bool
  pub now : ℕ
  pub resident_bytes : ℕ
  pub spill_bytes : ℕ
  pub output_bytes : Option ℕ
  pub overflows : Bool

abbrev pub exceeds_output : ℕ → Option ℕ → Bool
exceeds_output limit none = false
exceeds_output limit (some n) = ltb limit n

-- Why the parent kills the child: `EngineResourceLimitError`, or what the checkpoint raises.
pub data Stop : Type 0 where
  over_limit interrupted : Stop

-- `none` when the parent goes on.
unfoldable pub inspect : ResourcePolicy → Round → Option Stop
inspect p r =
    if r.checkpoint_raises
    then some interrupted
    else if leb p.timeout r.now
        || (ltb p.memory_limit_bytes r.resident_bytes
            || (ltb p.max_spill_bytes r.spill_bytes
                || (exceeds_output (output_limit_bytes p) r.output_bytes || r.overflows)))
    then some over_limit
    else none

-- How the loop ends: by the child's exit, or by an exception.
pub data Supervised : Type 0 where
  exit : ℕ → Supervised
  killed : Stop → Supervised

abbrev pub watched : Option Stop → Option Supervised → Option Supervised
watched none rest = rest
watched (some e) rest = some (killed e)

abbrev pub waited : Option ℕ → Option Stop → Option Supervised → Option Supervised
waited (some code) seen rest = some (exit code)
waited none seen rest = watched seen rest

-- The loop on fuel, from round `i`; `none` means that the fuel ran out.
unfoldable pub supervise : ResourcePolicy → (ℕ → Round) → ℕ → ℕ → Option Supervised
unfolding inspect
supervise p rounds zero i = none
supervise p rounds (suc fuel) i =
    let rest = supervise p rounds fuel (suc i) in
    if leb p.timeout (rounds i).before
    then some (killed over_limit)
    else waited (rounds i).exited (inspect p (rounds i)) rest

-- `drain_result`: the chunks that are kept, and whether there was too much.
pub record Drained : Type 0 where
  pub kept : Bytes
  pub overflow : Bool

abbrev pub drained_one : ℕ → Bytes → Drained → Drained
drained_one total c d =
    if ltb max_result_bytes total
    then record d { overflow = true }
    else if d.overflow
    then d
    else record d { kept = d.kept ++ c }

-- `total` counts the bytes of the chunks so far.
unfoldable pub drain : ℕ → List Bytes → Drained → Drained
drain total [] d = d
drain total (c ∷ cs) d = drain (total + length c) cs (drained_one (total + length c) c d)

-- The child's answer, parsed: its result, or the kind of its error.
pub data Answer (R : Type 0) : Type 0 where
  result : R → Answer R
  error : String → Answer R

abbrev pub ending_of : {R : Type 0} → String → Ending R
ending_of kind =
    if str_eq kind "capability"
    then capability
    else if str_eq kind "resource"
    then resource_limit
    else if str_eq kind "expansion"
    then expansion
    else if str_eq kind "quota"
    then quota
    else value_error

abbrev pub answered : {R : Type 0} → ℕ → Bool → Option (Answer R) → Ending R
answered code checkpoint none = value_error
answered code checkpoint (some (error kind)) = ending_of kind
answered code checkpoint (some (result r)) =
    if not (code == 0) then value_error else if checkpoint then checkpoint_raised else responded r

-- An exit without output; that of the memory watchdog has a message of its own.
abbrev pub concluded : {R : Type 0} → (Bytes → Option (Answer R)) → ℕ → Bool → Drained → Ending R
concluded parse code checkpoint d =
    if d.overflow
    then resource_limit
    else if is_nil d.kept
    then resource_limit
    else answered code checkpoint (parse d.kept)

-- What writing and flushing the request to the child's input does: it returns, it raises (OSError, as
-- from a child that is gone), or it does not return, as with a child that does not read.
pub data Writing : Type 0 where
  taken refused blocked : Writing

-- What surrounds a run: whether the first and the last checkpoint raise, the size of the request,
-- whether starting the child raises, what the write of the request does, the rounds, the chunks of the
-- output, whether the output comes to its end once the child is gone, so that the thread that reads it
-- can be joined, and `json.loads`, where it does not raise.
pub record Child (R : Type 0) : Type 0 where
  pub first_checkpoint_raises : Bool
  pub last_checkpoint_raises : Bool
  pub request_bytes : ℕ
  pub start_raises : Bool
  pub writing : Writing
  pub rounds : ℕ → Round
  pub chunks : List Bytes
  pub output_ends : Bool
  pub parse : Bytes → Option (Answer R)

abbrev pub raised : {R : Type 0} → Stop → Ending R
raised over_limit = resource_limit
raised interrupted = checkpoint_raised

abbrev pub settled : {R : Type 0} → Child R → Option Supervised → Option (Ending R)
settled c none = none
settled c (some (killed e)) = some (raised e)
settled c (some (exit code)) = some (
    concluded c.parse code c.last_checkpoint_raises
      (drain 0 c.chunks (record { kept = []; overflow = false })))

-- `reader.join()`, after the loop and again in the `finally` of every way out of it.
abbrev pub join : {R : Type 0} → Bool → Option (Ending R) → Option (Ending R)
join false e = none
join true e = e

-- The write of the request comes before the loop; what it raises is raised after the child is killed
-- and the reader joined.
abbrev pub written : {R : Type 0} → Bool → Writing → Option (Ending R) → Option (Ending R)
written ends taken e = join ends e
written ends refused e = join ends (some start_failed)
written ends blocked e = none

-- `none` where the parent does not return: the write blocks, the output does not end, or the fuel of
-- the loop ran out.
unfoldable pub run_job : {R : Type 0} → ResourcePolicy → Child R → ℕ → Option (Ending R)
unfolding supervise drain
run_job p c fuel =
    if c.first_checkpoint_raises
    then some checkpoint_raised
    else if ltb max_request_bytes c.request_bytes
    then some resource_limit
    else if c.start_raises
    then some start_failed
    else written c.output_ends c.writing (settled c (supervise p c.rounds fuel 0))
