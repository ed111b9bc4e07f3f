-- ===== src/Batches/Tests.antt =====
-- The theorems on batches at concrete inputs: a shop buys 1000 coins, and two operators decide.
use mrcoin.Base.{ℕ, ◌+◌, ◌*◌, ◌≤◌, ◌<◌, ◌≡◌, refl, Bool, true, [], ◌∷◌, none, some, arith}
use mrcoin.Base.Int.{pos}
use mrcoin.Base.Text.{Text, codes, text_eq}
use mrcoin.Base.Table.{find_where, update_where, count_where, any_where}
use mrcoin.Db.{Db, CoinBatch, BatchStatus, ok, err, psp_failure}
use mrcoin.Batches.Billing.{
  AsaasClient, create_charge, ensure_asaas_customer, place_charge, fetch_qr,
}
use mrcoin.Batches.{
  CreateBatchInput, CreateBatchResult, BatchConfig, asaas, price_in_cents, get_current_rate,
  create_via_asaas, insert_batch, write_batch, create_new, create_pending_batch, replay_existing,
  pix_for,
}
use mrcoin.Batches.Price.{answer_by, create_pending_batch_priced, create_pending_batch_twice}
use mrcoin.Batches.Decisions.{find_batch, decide, find_or_throw, approve, reject}
use mrcoin.Batches.Final.{Settles, Settles-refl, Decision, rejection, serve, serve-Settles}
use mrcoin.Batches.Answers.{approval_answer, rejection_answer, approved_for_good}
use mrcoin.Samples.{counting, new_db}

unfoldable batch_code : Unit {0}
unfolding find_where update_where count_where any_where text_eq answer_by create_charge
    ensure_asaas_customer place_charge fetch_qr price_in_cents get_current_rate create_via_asaas
    insert_batch write_batch create_new create_pending_batch replay_existing pix_for decide
    find_or_throw approve reject
batch_code = tt

abbrev provider : AsaasClient
provider = record {
  create_customer = λ name cnpj. ok (codes "cus");
  create_pix_charge = λ customer price due description reference. ok (codes "pay");
  get_pix_qr_code = λ charge. ok (record {
    qr_code_image = codes "img";
    copy_paste_code = charge;
    expiration_date = codes "soon";
  });
  date_string = λ n. n ∷ [];
}

abbrev by_provider : BatchConfig
by_provider = record {
  asaas_enabled = true;
  mrcoin_pix_key = codes "key";
  add_months = λ at months. at + months;
}

abbrev shop : Text
shop = codes "shop"

abbrev with_shop : Db
with_shop = record new_db {
  organizations =
      record { id = shop; name = codes "Shop"; cnpj = codes "1"; asaas_customer_id = none } ∷ [];
  rates = record { organization_id = shop; coins_per_real_scaled = 130 } ∷ [];
}

abbrev order : CreateBatchInput
order = record { total_coins = 1000; validity_months = 12 }

abbrev first_batch : CoinBatch
first_batch = record {
  id = 0 ∷ [];
  organization_id = shop;
  total_coins = pos 1000;
  remaining_coins = pos 1000;
  price_in_cents = 76923;
  status = BatchStatus.pending;
  expires_at = 12;
  psp_charge_id = some (codes "pay");
  approved_by_platform_admin_id = none;
  rejected_by_platform_admin_id = none;
  rejection_reason = none;
  idempotency_key = some (codes "buy-1");
  created_at = 0;
}

abbrev bought : CreateBatchResult
bought = record {
  batch = first_batch;
  pix = asaas (record {
    qr_code_image = codes "img";
    copy_paste_code = codes "pay";
    expiration_date = codes "soon";
  });
}

abbrev with_batch : Db
with_batch =
    (create_pending_batch counting provider by_provider (λ d. d) shop order (codes "buy-1")
      with_shop).1

purchase_runs :
    create_pending_batch counting provider by_provider (λ d. d) shop order (codes "buy-1") with_shop
    ≡ (ok bought, with_batch)
unfolding batch_code
purchase_runs = refl

create_pending_batch_priced_example :
    (BatchStatus.pending ≡ BatchStatus.pending)
    × (pos 1000 ≡ pos 1000)
    × (pos 1000 ≡ pos 1000)
    × (500 ≤ 76923)
    × (2 * (76923 * 130) ≤ 2 * (1000 * 10000) + 130)
    × (2 * (1000 * 10000) < 2 * (76923 * 130) + 130)
unfolding batch_code
create_pending_batch_priced_example =
    create_pending_batch_priced counting provider by_provider (λ d. d) shop (codes "buy-1") order
      with_shop with_batch bought (record { organization_id = shop; coins_per_real_scaled = 130 })
      refl refl (omega arith) purchase_runs

-- The provider is down when the request comes again.
abbrev down : AsaasClient
down = record provider { get_pix_qr_code = λ charge. err psp_failure }

create_pending_batch_twice_example :
    create_pending_batch counting down
      (record by_provider { asaas_enabled = Bool.false })
      (λ d. d)
      shop
      order
      (codes "buy-1")
      with_batch
    ≡ (err psp_failure, with_batch)
unfolding batch_code
create_pending_batch_twice_example =
    create_pending_batch_twice counting provider down by_provider
      (record by_provider { asaas_enabled = Bool.false }) (λ d. d) (λ d. d) shop (codes "buy-1")
      order with_shop with_batch bought
      (record { organization_id = shop; coins_per_real_scaled = 130 }) refl refl purchase_runs

abbrev alone : ℕ → Db → Db
alone _ db = db

abbrev refusal : Decision
refusal = rejection (codes "op") (0 ∷ []) (some (codes "unpaid")) none

serve-Settles_example : Settles with_batch (serve alone refusal with_batch)
serve-Settles_example = serve-Settles alone refusal with_batch (λ n db. Settles-refl db)

abbrev approved_batch : CoinBatch
approved_batch = record first_batch {
  status = BatchStatus.paid;
  approved_by_platform_admin_id = some (codes "op");
}

abbrev approved : Db
approved = (approve alone (codes "op") (0 ∷ []) none with_batch).1

approved_for_good_example :
    (b' : CoinBatch) × (find_batch (0 ∷ []) approved ≡ some b')
    × (b'.status ≡ BatchStatus.paid)
    × (approve alone (codes "op2") (0 ∷ []) none approved
        ≡ (approval_answer BatchStatus.paid b', approved))
    × (reject alone (codes "op2") (0 ∷ []) none none approved
        ≡ (rejection_answer BatchStatus.paid b', approved))
unfolding batch_code
approved_for_good_example =
    approved_for_good alone alone (λ d. d) (codes "op") (0 ∷ []) (codes "op2") none none none
      with_batch approved approved_batch (λ n db. Settles-refl db) Settles-refl refl
