-- ===== src/Distributions.antt =====
-- DistributionsService (src/modules/distributions/distributions.service.ts): an organization credits
-- coins to the lines of a file of CPFs (Bulk), once an administrator confirmed it. The state is the
-- database with the tables of distributions and their lines, and what the queue was given.
pub mod Bulk
pub mod Confirm
mod Tests
use mrcoin.Base.{
  ℕ, ◌+◌, Bool, true, false, ◌&&◌, List, [], ◌∷◌, ◌++◌, Option, none, some, if◌then◌else◌, ◌==◌,
}
use mrcoin.Base.Int.{ℤ}
use mrcoin.Base.Text.{Text, codes, text_eq}
use mrcoin.Base.Table.{find_where, update_where, count_where}
use mrcoin.Db.{
  Db, DistributionStatus, DistributionItemStatus, MembershipType, Failure, Result, ok, err,
  distribution_not_found, distribution_not_pending, recognition_value_not_found,
  recognition_value_inactive, record_not_found, Platform,
}

pub record OrganizationValue : Type 0 where
  pub id : Text
  pub organization_id : Text
  pub name : Text
  pub is_active : Bool

pub record Distribution : Type 0 where
  pub id : Text
  pub organization_id : Text
  pub admin_user_id : Text
  pub reason : Option Text
  pub message : Option Text
  pub organization_value_id : Option Text
  pub total_items : ℕ
  pub success_items : ℕ
  pub failed_items : ℕ
  pub status : DistributionStatus
  pub idempotency_key : Option Text

pub record DistributionItem : Type 0 where
  pub id : Text
  pub distribution_id : Text
  pub membership_id : Option Text
  pub amount : ℤ
  pub status : DistributionItemStatus
  pub error_reason : Option Text
  pub cpf_hash : Option Text
  pub cpf_encrypted : Option Text
  pub name : Option Text
  pub membership_type : Option MembershipType
  pub external_ref : Option Text
  pub created_at : ℕ

pub record Distributing : Type 0 where
  pub db : Db
  pub distributions : List Distribution
  pub items : List DistributionItem
  pub values : List OrganizationValue
  -- the ids of the distributions that the queue was given
  pub queue : List Text

abbrev pub distribution_description : Text
distribution_description = codes "Distribuição de coins"

abbrev pub recognition_description : Text
recognition_description = codes "Reconhecimento"

-- The name of the value that is recognized, whether there is a message, and the reason. An empty name or
-- reason counts as none.
unfoldable pub build_distribution_description : Option Text → Bool → Option Text → Text
build_distribution_description (some (c ∷ name)) has_message reason =
    recognition_description ++ codes " — " ++ c ∷ name
build_distribution_description _ true reason = recognition_description
build_distribution_description _ false (some (c ∷ reason)) =
    distribution_description ++ codes " — " ++ c ∷ reason
build_distribution_description _ false _ = distribution_description

abbrev pub find_distribution : Text → Distributing → Option Distribution
find_distribution k s = find_where (λ d. text_eq d.id k) s.distributions

-- `findFirst({ where: { id, organizationId } })`
abbrev pub find_own : Text → Text → Distributing → Option Distribution
find_own organization_id k s =
    find_where (λ d. text_eq d.id k && text_eq d.organization_id organization_id) s.distributions

unfoldable pub get_distribution : Text → Text → Distributing → Result Distribution
get_distribution organization_id k s = elim (find_own organization_id k s) [
  | none ↦ err distribution_not_found
  | some d ↦ ok d
]

-- `resolveRecognitionValue`: the value must be the organization's own, and active.
unfoldable pub resolve_recognition_value : Text → Text → Distributing → Result OrganizationValue
resolve_recognition_value organization_id k s =
    elim (find_where (λ v. text_eq v.id k && text_eq v.organization_id organization_id) s.values) [
      | none ↦ err recognition_value_not_found
      | some v ↦ if v.is_active then ok v else err recognition_value_inactive
    ]

abbrev pub is_pending : DistributionStatus → Bool
is_pending DistributionStatus.pending = true
is_pending _ = false

-- `where: { id, organizationId, status: 'PENDING' }`
abbrev pub unconfirmed : Text → Text → Distribution → Bool
unconfirmed organization_id k d =
    text_eq d.id k && text_eq d.organization_id organization_id && is_pending d.status

abbrev pub change_distribution :
    (Distribution → Bool) → (Distribution → Distribution) → Distributing → Distributing
change_distribution which change s = record s {
  distributions = update_where which change s.distributions;
}

-- `confirmBulkDistribution`: the guarded update, and only then the queue.
unfoldable pub confirm_bulk_distribution :
    Text → Text → Distributing → Result Distribution × Distributing
confirm_bulk_distribution organization_id k s =
    if count_where (unconfirmed organization_id k) s.distributions == 0
    then (elim (find_own organization_id k s) [
      | none ↦ (err distribution_not_found, s)
      | some d ↦ (err (distribution_not_pending k d.status), s)
    ])
    else (let s' : Distributing =
          change_distribution (unconfirmed organization_id k)
            (λ d. record d { status = DistributionStatus.processing })
            (record s { queue = k ∷ s.queue }) in
        elim (find_distribution k s') [ none ↦ (err record_not_found, s') | some d ↦ (ok d, s') ])
