-- ===== src/Engines/Supervision.antt =====
-- The parent's loop ends by the deadline, and what it hands on is the child's whole output.
use data_analytics_platform.Base.{
  ℕ, ◌+◌, ◌-◌, ◌≡◌, ◌≤◌, ◌<◌, suc, zero, min, refl, sym, ap, ◌∙◌, List, [], ◌∷◌, ◌++◌, length, Bool,
  true, false, Option, none, some, arith, inl, inr, Bool-cases, Option-cases, if◌then◌else◌, leb,
  ltb, Bytes, is_nil, ◌==◌,
}
use mathlib.Core.List.{append_assoc, append-nil}
use data_analytics_platform.Engines.Runner.{
  ResourcePolicy, is_valid_policy, Ending, responded, Round, inspect, Stop, Supervised, exit,
  killed, supervise, Drained, drain, drained_one, max_request_bytes, max_result_bytes,
  resource_limit, checkpoint_raised, start_failed, over_limit, interrupted, raised, Answer, result,
  Writing, taken, refused, blocked, written, error, answered, concluded, Child, settled, run_job,
}

-- A wait times out only after the time that it was given, and time does not run backwards.
pub record PassesTime (p : ResourcePolicy) (rounds : ℕ → Round) : Type 0 where
  pub waits :
      (i : ℕ)
      → (rounds i).before + min p.checkpoint_interval (p.timeout - (rounds i).before)
        ≤ (rounds i).now
  pub goes_on : (i : ℕ) → (rounds i).now ≤ (rounds (suc i)).before

supervise_ends :
    (p : ResourcePolicy) (rounds : ℕ → Round) (fuel i : ℕ)
    → PassesTime p rounds
    → 0 < p.checkpoint_interval
    → p.timeout - (rounds i).before < fuel
    → (s : Supervised) × (supervise p rounds fuel i ≡ some s)
unfolding supervise
supervise_ends p rounds zero i t k h = absurd (omega arith)
supervise_ends p rounds (suc fuel) i t k h = elim (Bool-cases (leb p.timeout (rounds i).before)) [
  | inl e ↦ (killed over_limit, rw e refl)
  | inr e ↦ elim (Option-cases (rounds i).exited) [
    | inr (code, x) ↦ (exit code, rw e (rw x refl))
    | inl x ↦ elim (Option-cases (inspect p (rounds i))) [
      | inr (stop, y) ↦ (killed stop, rw e (rw x (rw y refl)))
      | inl y ↦
          let before : (rounds i).before < p.timeout = ground arith in
          let less : p.timeout - (rounds (suc i)).before < fuel =
            omega (arith, t.waits i, t.goes_on i, before, k, h) in
          let (s, z) = supervise_ends p rounds fuel (suc i) t k less in (s, rw e (rw x (rw y z)))
    ]
  ]
]

valid_interval : (p : ResourcePolicy) → is_valid_policy p ≡ true → 0 < p.checkpoint_interval
valid_interval p h = ground arith

settled_ends :
    {R : Type 0} (c : Child R) (s : Supervised) → (e : Ending R) × (settled c (some s) ≡ some e)
settled_ends c (killed e) = (raised e, refl)
settled_ends c (exit code) = (_, refl)

written_ends :
    {R : Type 0} (w : Writing) (ending : Ending R)
    → ¬ (w ≡ blocked)
    → (e : Ending R) × (written true w (some ending) ≡ some e)
written_ends taken ending b = (ending, refl)
written_ends refused ending b = (start_failed, refl)
written_ends blocked ending b = absurd (b refl)

-- Where the policy is valid and a wait times out only after its time, the loop over the child does not
-- run on past the deadline: as many rounds as the timeout has units of time, and one more, are enough
-- for the attempt to end with a response or an exception. This is on two conditions that the loop does
-- not enforce: the write of the request to the child, before it, returns or raises, and the child's
-- output comes to its end, so that the thread that reads it can be joined.
pub run_job_ends :
    (R : Type 0) (p : ResourcePolicy) (c : Child R)
    → PassesTime p c.rounds
    → is_valid_policy p ≡ true
    → ¬ (c.writing ≡ blocked)
    → c.output_ends ≡ true
    → (e : Ending R) × (run_job p c (suc p.timeout) ≡ some e)
unfolding run_job
run_job_ends R p c t k b o = elim (Bool-cases c.first_checkpoint_raises) [
  | inl e ↦ (checkpoint_raised, rw e refl)
  | inr e ↦ elim (Bool-cases (ltb max_request_bytes c.request_bytes)) [
    | inl f ↦ (resource_limit, rw e (rw f refl))
    | inr f ↦ elim (Bool-cases c.start_raises) [
      | inl g ↦ (start_failed, rw e (rw f (rw g refl)))
      | inr g ↦
          let (s, z) =
            supervise_ends p c.rounds (suc p.timeout) 0 t (valid_interval p k) (omega arith) in
          let (ending, w) = settled_ends c s in
          let (last, v) = written_ends c.writing ending b in
          let whole =
            ap (λ ends. written ends c.writing (settled c (supervise p c.rounds (suc p.timeout) 0)))
              o
            ∙ ap (λ i. written true c.writing (settled c i)) z
            ∙ ap (λ i. written true c.writing i) w
            ∙ v in
          (last, simp (e, f, g) whole)
    ]
  ]
]

-- All bytes of the output.
abbrev pub joined : List Bytes → Bytes
joined [] = []
joined (c ∷ cs) = c ++ joined cs

length-append : (s t : Bytes) → length (s ++ t) ≡ length s + length t
length-append [] t = omega arith
length-append (x ∷ s) t = omega (arith, length-append s t)

drained_one-overflow :
    (total : ℕ) (c : Bytes) (d : Drained)
    → d.overflow ≡ true
    → (drained_one total c d).overflow ≡ true
drained_one-overflow total c d h = ground arith

drained_one-kept :
    (total : ℕ) (c : Bytes) (d : Drained)
    → (drained_one total c d).overflow ≡ false
    → (total ≤ max_result_bytes)
      × (d.overflow ≡ false)
      × ((drained_one total c d).kept ≡ d.kept ++ c)
drained_one-kept total c d h = elim (Bool-cases (ltb max_result_bytes total)) [
  | inl e ↦ absurd (ground arith)
  | inr e ↦ elim (Bool-cases d.overflow) [
    | inl f ↦ absurd (ground arith)
    | inr f ↦ (ground arith, f, rw e (rw f refl))
  ]
]

drain-overflow :
    (total : ℕ) (cs : List Bytes) (d : Drained)
    → d.overflow ≡ true
    → (drain total cs d).overflow ≡ true
unfolding drain
drain-overflow total [] d h = h
drain-overflow total (c ∷ cs) d h =
    drain-overflow (total + length c) cs (drained_one (total + length c) c d)
      (drained_one-overflow (total + length c) c d h)

drain-kept :
    (total : ℕ) (cs : List Bytes) (d : Drained)
    → total ≤ max_result_bytes
    → (drain total cs d).overflow ≡ false
    → ((drain total cs d).kept ≡ d.kept ++ joined cs)
      × (total + length (joined cs) ≤ max_result_bytes)
unfolding drain
drain-kept total [] d l h = (sym (append-nil d.kept), omega arith)
drain-kept total (c ∷ cs) d l h =
    let next = drained_one (total + length c) c d in
    elim (Bool-cases next.overflow) [
      | inl e ↦ let more = drain-overflow (total + length c) cs next e in absurd (cc)
      | inr e ↦
          let (few, clear, kept) = drained_one-kept (total + length c) c d e in
          let (same, small) = drain-kept (total + length c) cs next few h in
          (
            same ∙ ap (λ (s : Bytes). s ++ joined cs) kept ∙ append_assoc d.kept c (joined cs),
            omega (arith, small, length-append c (joined cs)),
          )
    ]

abbrev empty : Drained
empty = record { kept = []; overflow = false }

answered-responded :
    {R : Type 0} (code : ℕ) (last : Bool) (o : Option (Answer R)) (r : R)
    → answered code last o ≡ responded r
    → (o ≡ some (result r)) × (code ≡ 0) × (last ≡ false)
answered-responded code last none r h = absurd (cc)
answered-responded code last (some (error kind)) r h = absurd (ground arith)
answered-responded code last (some (result x)) r h = elim (Bool-cases (code == 0)) [
  | inr e ↦ absurd (ground arith)
  | inl e ↦ elim (Bool-cases last) [
    | inl f ↦ absurd (ground arith)
    | inr f ↦ (ground arith, ground arith, f)
  ]
]

killed_raises :
    {R : Type 0} (c : Child R) (e : Stop) (r : R)
    → settled c (some (killed e)) ≡ some (responded r)
    → ⊥
killed_raises c over_limit r h = cc
killed_raises c interrupted r h = cc

exit_responds :
    {R : Type 0} (c : Child R) (o : Option Supervised) (r : R)
    → settled c o ≡ some (responded r)
    → (code : ℕ) × (o ≡ some (exit code))
      × (concluded c.parse code c.last_checkpoint_raises (drain 0 c.chunks empty) ≡ responded r)
exit_responds c none r h = absurd (cc)
exit_responds c (some (killed e)) r h = absurd (killed_raises c e r h)
exit_responds c (some (exit code)) r h = (code, refl, cc)

written-responded :
    {R : Type 0} (ends : Bool) (w : Writing) (o : Option (Ending R)) (r : R)
    → written ends w o ≡ some (responded r)
    → o ≡ some (responded r)
written-responded true taken o r h = h
written-responded false taken o r h = absurd (cc)
written-responded true refused o r h = absurd (cc)
written-responded false refused o r h = absurd (cc)
written-responded ends blocked o r h = absurd (cc)

started :
    {R : Type 0} (c : Child R) (o : Option (Ending R)) (r : R)
    → (if c.start_raises then some start_failed else written c.output_ends c.writing o)
      ≡ some (responded r)
    → o ≡ some (responded r)
started c o r h = elim (Bool-cases c.start_raises) [
  | inl e ↦ let no = rw e at h in absurd (cc)
  | inr e ↦ written-responded c.output_ends c.writing o r (rw e at h)
]

concluded-responded :
    {R : Type 0} (parse : Bytes → Option (Answer R)) (code : ℕ) (last : Bool) (d : Drained) (r : R)
    → concluded parse code last d ≡ responded r
    → (d.overflow ≡ false) × (parse d.kept ≡ some (result r)) × (code ≡ 0) × (last ≡ false)
concluded-responded parse code last d r h = elim (Bool-cases d.overflow) [
  | inl e ↦ absurd (ground arith)
  | inr e ↦ elim (Bool-cases (is_nil d.kept)) [
    | inl f ↦ absurd (ground arith)
    | inr f ↦
        let (o, zero_code, fine) =
          answered-responded code last (parse d.kept) r (rw f at (rw e at h)) in
        (e, o, zero_code, fine)
  ]
]

-- A response that an attempt returns is the child's own: the child has ended with exit code zero before
-- the loop raised, its whole output is within the limit of results and parses as this response, and
-- neither the first nor the last checkpoint has raised.
pub run_job-responded :
    (R : Type 0) (p : ResourcePolicy) (c : Child R) (fuel : ℕ) (r : R)
    → run_job p c fuel ≡ some (responded r)
    → (supervise p c.rounds fuel 0 ≡ some (exit 0))
      × (length (joined c.chunks) ≤ max_result_bytes)
      × (c.parse (joined c.chunks) ≡ some (result r))
      × (c.first_checkpoint_raises ≡ false)
      × (c.last_checkpoint_raises ≡ false)
unfolding run_job
run_job-responded R p c fuel r h = elim (Bool-cases c.first_checkpoint_raises) [
  | inl e ↦ let no = rw e at h in absurd (cc)
  | inr e ↦ elim (Bool-cases (ltb max_request_bytes c.request_bytes)) [
    | inl f ↦ let no = rw f at (rw e at h) in absurd (cc)
    | inr f ↦
        let (code, s, d) =
          exit_responds c (supervise p c.rounds fuel 0) r
            (started c (settled c (supervise p c.rounds fuel 0)) r (rw f at (rw e at h))) in
        let (clear, parsed, zero_code, fine) =
          concluded-responded c.parse code c.last_checkpoint_raises (drain 0 c.chunks empty) r d in
        let (kept, small) = drain-kept 0 c.chunks empty (omega arith) clear in
        (
          s ∙ ap (λ n. some (exit n)) zero_code,
          omega (arith, small),
          ap c.parse (sym kept) ∙ parsed,
          e,
          fine,
        )
  ]
]
