-- ===== src/Tests/Engines.antt =====
-- The theorems on the supervision of a child at one child, which ends in its third round.
use data_analytics_platform.Base.{
  ℕ, zero, suc, ◌+◌, ◌≡◌, ◌≤◌, refl, [], ◌∷◌, true, false, Option, none, some, arith, length, codes,
}
use data_analytics_platform.Engines.Runner.{
  ResourcePolicy, Ending, responded, Round, exit, supervise, max_result_bytes, result, Child, taken,
  run_job,
}
use data_analytics_platform.Engines.Supervision.{
  PassesTime, run_job_ends, joined, run_job-responded,
}

abbrev policy : ResourcePolicy
policy = record {
  max_output_bytes = 100;
  quota_remaining_bytes = 80;
  threads = 2;
  memory_limit_bytes = 512;
  max_spill_bytes = 64;
  timeout = 10;
  checkpoint_interval = 1;
  max_columns = 5;
  max_column_name_chars = 16;
  max_rows = 10;
}

abbrev code_in : ℕ → Option ℕ
code_in (suc (suc zero)) = some 0
code_in _ = none

abbrev rounds : ℕ → Round
rounds i = record {
  before = i;
  exited = code_in i;
  checkpoint_raises = false;
  now = i + 1;
  resident_bytes = 100;
  spill_bytes = 0;
  output_bytes = none;
  overflows = false;
}

rounds-PassesTime : PassesTime policy rounds
rounds-PassesTime = record { waits = λ i. omega arith; goes_on = λ i. omega arith }

abbrev child : Child ℕ
child = record {
  first_checkpoint_raises = false;
  last_checkpoint_raises = false;
  request_bytes = 200;
  start_raises = false;
  writing = taken;
  rounds = rounds;
  chunks = codes "4" ∷ codes "2" ∷ [];
  output_ends = true;
  parse = λ b. some (result (length b));
}

run_job_ends_example : (e : Ending ℕ) × (run_job policy child 11 ≡ some e)
run_job_ends_example = run_job_ends ℕ policy child rounds-PassesTime refl (λ e. cc) refl

responded_two : run_job policy child 11 ≡ some (responded 2)
unfolding run_job
responded_two = refl

run_job-responded_example :
    (supervise policy rounds 11 0 ≡ some (exit 0))
    × (length (joined child.chunks) ≤ max_result_bytes)
    × (child.parse (joined child.chunks) ≡ some (result 2))
    × (child.first_checkpoint_raises ≡ false)
    × (child.last_checkpoint_raises ≡ false)
run_job-responded_example = run_job-responded ℕ policy child 11 2 responded_two
