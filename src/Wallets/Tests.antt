-- ===== src/Wallets/Tests.antt =====
-- The theorems on transfers between users at concrete inputs.
use mrcoin.Base.{refl}
use mrcoin.Base.Int.{pos}
use mrcoin.Base.Text.{codes, text_eq}
use mrcoin.Ledger.Outcome.{quiet}
use mrcoin.Users.Pin.{verify_pin, judge_pin, get, lock_key}
use mrcoin.Wallets.Sending.{
  CreateTransferInput, TransferResult, Checked, create_transfer, check_transfer, resolve_wallet_id,
  sent_since, check_recipient, check_amount, send, upsert_transfer, ledger_input,
}
use mrcoin.Wallets.Sending.Limit.{IsPermitted, create_transfer_checked}
use mrcoin.Users.Pin.Accepted.{IsAccepted}
use mrcoin.Samples.{counting, alice, bob, office, empty_redis, ledger_code}

abbrev gift : CreateTransferInput
gift = record {
  organization_id = codes "org";
  recipient_membership_id = bob;
  amount = pos 30;
  transaction_pin = codes "4711";
}

abbrev gift_result : TransferResult
gift_result = record {
  id = codes "transfer:g1";
  amount = pos 30;
  recipient_membership_id = bob;
  recipient_name = bob;
  created_at = 3;
}

create_transfer_checked_example :
    (c : Checked) × IsPermitted counting alice gift office c
    × IsAccepted text_eq office empty_redis 0 alice (codes "4711")
unfolding ledger_code create_transfer check_transfer resolve_wallet_id check_recipient check_amount
    sent_since send upsert_transfer ledger_input verify_pin judge_pin get lock_key
create_transfer_checked_example =
    create_transfer_checked counting text_eq 0 alice gift (codes "g1") office empty_redis refl quiet
      gift_result refl
