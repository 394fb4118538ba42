-- ===== src/Cache/Versioned.antt =====
-- The operations of redisx.Versioned on the two Redis keys of one id: the value, absent on a miss, and
-- the version counter, absent until the first write. A Redis command that fails is an argument.
use chirpy.Prelude.{ℕ, ◌+◌, Bool, Option, none, some, if◌then◌else◌, ◌==◌}

pub record Entry {ℓ} (V : Type ℓ) : Type ℓ where
  pub value : Option V
  pub ver : Option ℕ

-- A reply of Redis, or of the loader: `failed` is an error.
pub data Reply {ℓ} (A : Type ℓ) : Type ℓ where
  got : A → Reply A
  failed : Reply A

-- A missing counter counts as 0, both for Version and inside Put.
abbrev pub counter : Option ℕ → ℕ
counter none = 0
counter (some n) = n

module _ {ℓ} {V : Type ℓ} where
  unfoldable pub get : Bool → Entry V → Reply (Option V)
  get broken e = if broken then failed else got e.value

  unfoldable pub version : Bool → Entry V → Reply ℕ
  version broken e = if broken then failed else got (counter e.ver)

  -- The transaction of Put: the value is written only at the version that was read.
  unfoldable pub put : ℕ → V → Entry V → Entry V
  put seen val e = if counter e.ver == seen then record e { value = some val } else e

  unfoldable pub invalidate : Entry V → Entry V
  invalidate e = record e { value = none; ver = some (counter e.ver + 1) }

  -- The read path with nobody else at work: what it returns, and the entry that it leaves.
  unfoldable pub load_miss : Bool → Bool → Reply V → Entry V → Reply V × Entry V
  unfolding version put
  load_miss ver_broken put_broken failed e = (failed, e)
  load_miss ver_broken put_broken (got val) e = elim (version ver_broken e) [
    | failed ↦ (got val, e)
    | got seen ↦ (got val, if put_broken then e else put seen val e)
  ]

  unfoldable pub load : Bool → Bool → Bool → Reply V → Entry V → Reply V × Entry V
  unfolding get load_miss
  load get_broken ver_broken put_broken loaded e = elim (get get_broken e) [
    | got (some val) ↦ (got val, e)
    | got none ↦ load_miss ver_broken put_broken loaded e
    | failed ↦ load_miss ver_broken put_broken loaded e
  ]
