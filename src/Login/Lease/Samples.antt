-- ===== src/Login/Lease/Samples.antt =====
-- A run of two requests, and the theorems at work on it.
use ggs.Prelude.{◌*◌, ◌≤◌, ◌≡◌, refl, some, arith}
use ggs.Prelude.Int.{pos}
use ggs.Login.{check_create_character, check_server_count, create_character, store_character}
use ggs.Login.Create.{of_account, on_server}
use ggs.Login.Small.{sample_services, sample_services-IsServices}
use ggs.Login.Lease.{
  default_timeout, System, Steps, time_passes, asks, locks, checks, refreshes, creates, none_yet,
  then_step,
}
use ggs.Login.Lease.Limits.{Steps-limits}
use ggs.Login.Lease.Late.{lease, lease-IsLock, server_one, start, late_exceeds}

abbrev Sample : Type 0
Sample = System sample_services lease (pos 7) server_one 10000

abbrev SampleSteps : Sample → Sample → Type 0
SampleSteps = Steps sample_services lease (pos 7) server_one 10000

-- Request 0 makes its character, and does not unlock.
abbrev sample_run : (x : Sample) × SampleSteps (start 10000) x
unfolding check_create_character check_server_count create_character store_character
sample_run = (
  _,
  then_step
      (then_step
        (then_step
          (then_step
            (then_step (then_step none_yet (asks (start 10000) 0 refl))
              (locks _ 0 0 (some (0, 10000)) refl (omega arith) refl))
            (checks _ 0 refl refl))
          (refreshes _ 0 (some (0, 10000)) refl refl))
        (time_passes _ 8000))
      (creates _ 0 0 refl (omega arith)),
)

Steps-limits_example :
    (of_account (pos 7) sample_run.0.db.0 ≤ 2) × (on_server (pos 7) (pos 101) sample_run.0.db.0 ≤ 2)
Steps-limits_example =
    Steps-limits sample_services sample_services-IsServices lease (pos 7) server_one 10000
      lease-IsLock (omega arith) (start 10000) sample_run.0 (λ i. refl)
      (λ s. (omega arith, ground arith)) sample_run.1 (pos 101)

late_exceeds_example :
    (x : System sample_services lease (pos 7) server_one (3 * default_timeout)) × Steps
      sample_services lease
      (pos 7)
      server_one
      (3 * default_timeout)
      (start (3 * default_timeout))
      x
    × (of_account (pos 7) x.db.0 ≡ 3)
late_exceeds_example = late_exceeds (3 * default_timeout) (omega arith)
