-- ===== src/Spins/Values.antt =====
-- The coins that the spins stand for, and what an update does to the sum.
use mrcoin.Base.{
  ℕ, zero, suc, ◌+◌, ◌*◌, ◌≤◌, ◌≡◌, refl, ap, inl, inr, Bool, true, false, ◌&&◌, List, [], ◌∷◌,
  Option, none, some, All, sym, ◌∙◌, arith, Bool-cases,
}
use mrcoin.Base.Int.{ℤ, pos, ◌+ℤ◌, pos_part, neg_part, int_laws}
use mrcoin.Base.Text.{Text, text_eq→eq}
use mrcoin.Base.Table.{update_where, count_where, any_where}
use mrcoin.Base.Unique.{IsUniqueBy, has_key, any_absent}
use mrcoin.Db.{CoinBatch, SpinStatus}
use mrcoin.Stock.{total_available}
use mrcoin.Spins.{
  Spin, is_pending, unspent, batch_is, add_coins, spin_reserved_amount, sector_coins, spin_sectors,
  draw_sector,
}
use mrcoin.Spins.Grants.{has_block, take_block}

-- What a spin stands for: what was set aside, what was won, or nothing.
unfoldable pub coins_of : SpinStatus → Option ℕ → ℕ
coins_of SpinStatus.pending _ = spin_reserved_amount
coins_of SpinStatus.redeemed (some n) = n
coins_of SpinStatus.redeemed none = 0
coins_of SpinStatus.expired _ = 0

abbrev pub value_of : Spin → ℕ
value_of spin = coins_of spin.status spin.coins_awarded

unfoldable pub values : List Spin → ℕ
values [] = 0
values (spin ∷ spins) = value_of spin + values spins

pending_coins :
    (status : SpinStatus) (o : Option ℕ)
    → is_pending status ≡ true
    → coins_of status o ≡ spin_reserved_amount
unfolding coins_of
pending_coins SpinStatus.pending o e = refl
pending_coins SpinStatus.redeemed o e = absurd (cc)
pending_coins SpinStatus.expired o e = absurd (cc)

pending_value :
    (k : Text) (spin : Spin) → unspent k spin ≡ true → value_of spin ≡ spin_reserved_amount
unfolding coins_of
pending_value k spin e = pending_coins spin.status spin.coins_awarded (ground arith)

next : (v n a b : ℕ) → a + 1000 * n ≡ b + v * n → v + a + 1000 * (1 + n) ≡ 1000 + b + v * (1 + n)
next v n a b h = omega (arith, h)

more_stock :
    (n c : ℕ) (r t : ℤ) → (r +ℤ pos n) +ℤ (t +ℤ pos (n * c)) ≡ (r +ℤ t) +ℤ pos (n * (1 + c))
more_stock n c r t = omega int_laws

within :
    (ns : List ℕ) (i : ℕ)
    → All (λ n. n ≤ spin_reserved_amount) ns
    → sector_coins ns i ≤ spin_reserved_amount
unfolding sector_coins
within [] i h = omega arith
within (n ∷ ns) zero h = h.0
within (n ∷ ns) (suc i) h = within ns i h.1

-- An update of spins that are pending to one value.
pub values-update :
    (k : Text) (f : Spin → Spin) (v : ℕ) (spins : List Spin)
    → ((spin : Spin) → value_of (f spin) ≡ v)
    → values (update_where (unspent k) f spins)
        + spin_reserved_amount * count_where (unspent k) spins
      ≡ values spins + v * count_where (unspent k) spins
unfolding update_where count_where values coins_of
values-update k f v [] to = ground arith
values-update k f v (spin ∷ spins) to =
    let ih = values-update k f v spins to in
    elim (Bool-cases (unspent k spin)) [
      | inl e ↦
          rw (e, to spin, pending_value k spin e) (next v (count_where (unspent k) spins) _ _ ih)
      | inr e ↦ rw e (omega (arith, ih))
    ]

-- An update that leaves the values alone.
pub values-kept :
    (q : Spin → Bool) (f : Spin → Spin) (spins : List Spin)
    → ((spin : Spin) → value_of (f spin) ≡ value_of spin)
    → values (update_where q f spins) ≡ values spins
unfolding update_where values
values-kept q f [] same = refl
values-kept q f (spin ∷ spins) same = elim (Bool-cases (q spin)) [
  | inl e ↦ rw (e, same spin) (ap (λ n. value_of spin + n) (values-kept q f spins same))
  | inr e ↦ rw e (ap (λ n. value_of spin + n) (values-kept q f spins same))
]

-- With ids unique an update by id hits one row at most.
pub count_at_most_one :
    {A : Type 0} (key : A → Text) (k : Text) (q : A → Bool) (xs : List A)
    → IsUniqueBy key xs
    → count_where (λ a. has_key key k a && q a) xs ≤ 1
unfolding count_where
count_at_most_one key k q [] u = omega arith
count_at_most_one key k q (x ∷ xs) u = elim (Bool-cases (has_key key k x)) [
  | inl e ↦
      let same : key x ≡ k = text_eq→eq (key x) k e in
      let rest = any_absent key k q xs (ap (λ j. any_where (has_key key j) xs) (sym same) ∙ u.0) in
      ground (arith, rest)
  | inr e ↦ ground (arith, count_at_most_one key k q xs u.1)
]

count_none {ℓ} :
    {A : Type ℓ} (p : A → Bool) (xs : List A) → any_where p xs ≡ false → count_where p xs ≡ 0
unfolding any_where count_where
count_none p [] h = refl
count_none p (x ∷ xs) h = ground (arith, count_none p xs)

pub count_key_at_most_one :
    {A : Type 0} (key : A → Text) (k : Text) (xs : List A)
    → IsUniqueBy key xs
    → count_where (has_key key k) xs ≤ 1
unfolding count_where
count_key_at_most_one key k [] u = omega arith
count_key_at_most_one key k (x ∷ xs) u = elim (Bool-cases (has_key key k x)) [
  | inl e ↦
      let same : key x ≡ k = text_eq→eq (key x) k e in
      let rest =
        count_none (has_key key k) xs (ap (λ j. any_where (has_key key j) xs) (sym same) ∙ u.0) in
      ground (arith, rest)
  | inr e ↦ ground (arith, count_key_at_most_one key k xs u.1)
]

-- Coins that are put into a batch.
pub stock_grows :
    (k : Text) (n : ℕ) (bs : List CoinBatch)
    → total_available (update_where (batch_is k) (add_coins n) bs)
      ≡ total_available bs +ℤ pos (n * count_where (batch_is k) bs)
unfolding update_where count_where total_available
stock_grows k n [] = omega int_laws
stock_grows k n (b ∷ bs) =
    let ih = stock_grows k n bs in
    elim (Bool-cases (batch_is k b)) [
      | inl e ↦ rw (e, ih) (more_stock n (count_where (batch_is k) bs) _ _)
      | inr e ↦ rw (e, ih) (omega int_laws)
    ]

-- A block of coins that is taken from a batch.
pub stock_shrinks :
    (k : Text) (bs : List CoinBatch)
    → total_available (update_where (has_block k) take_block bs)
        +ℤ pos (spin_reserved_amount * count_where (has_block k) bs)
      ≡ total_available bs
unfolding update_where count_where total_available
stock_shrinks k [] = omega int_laws
stock_shrinks k (b ∷ bs) =
    let ih = stock_shrinks k bs in
    elim (Bool-cases (has_block k b)) [
      | inl e ↦ rw e (omega (int_laws, ap pos_part ih, ap neg_part ih))
      | inr e ↦ rw e (omega (int_laws, ap pos_part ih, ap neg_part ih))
    ]

-- No sector is worth more than what is set aside.
pub draw_within : (random : ℕ) → (draw_sector random).coins_awarded ≤ spin_reserved_amount
unfolding draw_sector
draw_within random = within spin_sectors random (
  omega arith,
  (
    omega arith,
    (omega arith, (omega arith, (omega arith, (omega arith, (omega arith, (omega arith, tt)))))),
  ),
)
