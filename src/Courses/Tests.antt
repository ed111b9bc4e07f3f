-- ===== src/Courses/Tests.antt =====
-- The theorem on course credit at a concrete input: Alice has completed a course.
use mrcoin.Base.{◌∷◌, [], none}
use mrcoin.Base.Int.{pos}
use mrcoin.Base.Text.{codes}
use mrcoin.Db.{CoinBatch, BatchStatus, Wallet}
use mrcoin.Courses.{CourseCompletion, CourseCreditStatus, Crediting, try_credit}
use mrcoin.Samples.{counting, office, alice, empty_wallet}

abbrev reward_batch : CoinBatch
reward_batch = record {
  id = codes "b1";
  organization_id = codes "org";
  total_coins = pos 500;
  remaining_coins = pos 400;
  price_in_cents = 500;
  status = BatchStatus.paid;
  expires_at = 100;
  psp_charge_id = none;
  approved_by_platform_admin_id = none;
  rejected_by_platform_admin_id = none;
  rejection_reason = none;
  idempotency_key = none;
  created_at = 0;
}

abbrev completion : CourseCompletion
completion = record {
  id = codes "done";
  course_id = codes "c1";
  membership_id = alice;
  organization_id = codes "org";
  quiz_attempt_id = codes "q1";
  credit_status = CourseCreditStatus.pending;
  credited_at = none;
  created_at = 0;
}

abbrev school : Crediting
school = record {
  db = record office { batches = reward_batch ∷ [] };
  completions = completion ∷ [];
}

abbrev rewarded : Crediting
rewarded = (try_credit counting (λ s. s) (codes "done") school).1

abbrev alice_before : Wallet
alice_before = record (empty_wallet alice) { cached_balance = pos 100; version = 1 }
