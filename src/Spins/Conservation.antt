-- ===== src/Spins/Conservation.antt =====
-- The coins in the batches and in the spins, over all requests on spins.
use mrcoin.Base.{ℕ, ◌≡◌, refl, inl, inr, ◌&&◌, ltb}
use mrcoin.Base.Int.{ℤ}
use mrcoin.Base.Text.{Text}
use mrcoin.Base.Table.{filter_where}
use mrcoin.Db.{Platform, ok, Result-cases, and_then_keeps}
use mrcoin.Wallets.Sending.{resolve_wallet_id}
use mrcoin.Spins.{Spinning, expire_all, get_available_count, awaits, available, spin_sectors}
use mrcoin.Spins.Requests.{Request, granting, redeeming, counting, serve}
use mrcoin.Spins.Sum.{total, HasUniqueIds, Holds, KeepsCoins, expire_all-Holds}
use mrcoin.Spins.Sum.Redeeming.{redeem-Holds}
use mrcoin.Spins.Sum.Granting.{grant-Holds}

count-Holds :
    (p : Platform) (n : ℤ) (user_id organization_id : Text) (s : Spinning)
    → Holds n s
    → Holds n (get_available_count p user_id organization_id s).1
unfolding get_available_count
count-Holds p n user_id organization_id s h =
    elim (Result-cases (resolve_wallet_id user_id organization_id s.db)) [
      | inr (x, e) ↦ rw (get_available_count, e) h
      | inl ((m, w), e) ↦
          let late =
            filter_where (λ spin. awaits m.id spin && ltb spin.expires_at (p.now s.db.ticks))
              s.spins in
          rw (get_available_count, e)
            (and_then_keeps (Holds n) (expire_all late s)
              (λ _ s'. (ok (available p m.id s', spin_sectors), s')) (expire_all-Holds n late s h)
              (λ _ s' kept. kept))
    ]

-- Where ids are unique, after a request on spins, however it ends and whatever others commit meanwhile
-- that keeps this, what the batches hold, what is set aside for pending spins and what redeemed spins
-- record as won have the same sum as before, also while a redemption is still looking for a spin. The
-- balances of the wallets are not part of it.
pub serve-KeepsCoins :
    (p : Platform) (hash_cpf encrypt_cpf : Text → Text) (gaps : ℕ → Spinning → Spinning)
    (random : ℕ → ℕ) (fuel : ℕ) (r : Request) (s : Spinning)
    → ((k : ℕ) → KeepsCoins (gaps k))
    → HasUniqueIds s
    → HasUniqueIds (serve p hash_cpf encrypt_cpf gaps random fuel r s)
      × (total (serve p hash_cpf encrypt_cpf gaps random fuel r s) ≡ total s)
unfolding serve
serve-KeepsCoins p hash_cpf encrypt_cpf gaps random fuel
      (granting organization_id admin_user_id i key) s others u =
    grant-Holds p hash_cpf encrypt_cpf (total s) (gaps 0) organization_id admin_user_id key i s
      (others 0) (u, refl)
serve-KeepsCoins p hash_cpf encrypt_cpf gaps random fuel (redeeming user_id organization_id key) s
      others u =
    redeem-Holds p gaps random others (total s) fuel user_id organization_id key s (u, refl)
serve-KeepsCoins p hash_cpf encrypt_cpf gaps random fuel (counting user_id organization_id) s others
      u =
    count-Holds p (total s) user_id organization_id s (u, refl)
