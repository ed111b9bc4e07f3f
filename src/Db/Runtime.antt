-- ===== src/Db/Runtime.antt =====
-- What the code takes from its runtime and does not implement: `node:crypto`, `Date`, and the ids
-- that Prisma gives a new row. `now n` and `cuid n` are what the clock and the generator give when n
-- stamps were given before.
use mrcoin.Base.{ℕ, ◌<◌, ◌≡◌, Bool, true, ◌&&◌, ◌||◌, ltb, ◌==◌}
use mrcoin.Base.Text.{Text, text_lt}

pub record Platform : Type 0 where
  pub sha256 : Text → Text
  pub to_iso_string : ℕ → Text
  pub now : ℕ → ℕ
  pub cuid : ℕ → Text

-- The order of `orderBy: [{ createdAt }, { id }]` on the two columns.
abbrev pub stamp_before : ℕ → Text → ℕ → Text → Bool
stamp_before at id at' id' = ltb at at' || (at == at' && text_lt id id')

-- The clock does not run backwards, and ids of one instant grow (as a cuid's counter does).
abbrev pub IsMonotonic : Platform → Type 0
IsMonotonic p = (i j : ℕ) → i < j → stamp_before (p.now i) (p.cuid i) (p.now j) (p.cuid j) ≡ true
