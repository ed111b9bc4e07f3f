-- ===== src/Batches/Billing.antt =====
-- BillingService (src/modules/billing/billing.service.ts). The client of the payment provider is a
-- parameter, with what it answers during one request, its failures included; another request may meet
-- another one. No request makes the same call twice.
use mrcoin.Base.{ℕ, Option, none, some}
use mrcoin.Base.Text.{Text, text_eq}
use mrcoin.Base.Table.{find_where, update_where}
use mrcoin.Db.{
  Db, Organization, Platform, Action, Result, ok, err, organization_not_found, and_then,
}

pub record QrCode : Type 0 where
  pub qr_code_image : Text
  pub copy_paste_code : Text
  pub expiration_date : Text

-- `AsaasClient`: a customer's name and CNPJ give its id; customer, cents, due date, description and
-- reference give a charge's id; a charge has a QR code.
pub record AsaasClient : Type 0 where
  pub create_customer : Text → Text → Result Text
  pub create_pix_charge : Text → ℕ → Text → Text → Text → Result Text
  pub get_pix_qr_code : Text → Result QrCode
  -- `toISOString().slice(0, 10)` of an instant
  pub date_string : ℕ → Text

pub record PixChargeResult : Type 0 where
  pub psp_charge_id : Text
  pub qr_code : QrCode

abbrev pub find_organization : Text → Db → Option Organization
find_organization k db = find_where (λ o. text_eq o.id k) db.organizations

-- `refetchQrCode`
abbrev pub refetch_qr_code : AsaasClient → Text → Result QrCode
refetch_qr_code client charge = client.get_pix_qr_code charge

module _ (p : Platform) (client : AsaasClient) where
  unfoldable pub ensure_asaas_customer : Organization → Action Text
  ensure_asaas_customer o db =
      and_then (client.create_customer o.name o.cnpj, db)
        λ customer db'. (
          ok customer,
          record db' {
            organizations =
                update_where (λ r. text_eq r.id o.id)
                  (λ r. record r { asaas_customer_id = some customer }) db'.organizations;
          },
        )

  -- `organization.asaasCustomerId ?? (await this.ensureAsaasCustomer(...))`
  abbrev pub customer_of : Organization → Action Text
  customer_of o db = elim o.asaas_customer_id [
    | some customer ↦ (ok customer, db)
    | none ↦ ensure_asaas_customer o db
  ]

  unfoldable pub fetch_qr : Text → Action PixChargeResult
  fetch_qr charge db = elim (client.get_pix_qr_code charge) [
    | err e ↦ (err e, db)
    | ok qr ↦ (ok (record { psp_charge_id = charge; qr_code = qr }), db)
  ]

  unfoldable pub place_charge : ℕ → ℕ → Text → Text → Text → Action PixChargeResult
  place_charge price now description reference customer db =
      elim (client.create_pix_charge customer price (client.date_string now) description
        reference) [ err e ↦ (err e, db) | ok charge ↦ fetch_qr charge db ]

  unfoldable pub create_charge : Text → ℕ → Text → Text → Action PixChargeResult
  create_charge organization_id price description reference db =
      elim (find_organization organization_id db) [
        | none ↦ (err organization_not_found, db)
        | some o ↦
            and_then (customer_of o db) (place_charge price (p.now db.ticks) description reference)
      ]
