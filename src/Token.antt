-- ===== src/Token.antt =====
-- src/include/dcd/token.h: the search token, a lattice state with a cost.
-- A lattice state is an address; the null pointer is `none`.
pub mod Best
use opendcd.Prelude.{ℕ, Bool, true, false, Option, none, some, if◌then◌else◌}
use opendcd.Prelude.Float.{Float, add, lt, max_cost}

pub record Token (F : Type 0) : Type 0 where
  pub tb : Option ℕ
  pub cost : F

module _ {F : Type 0} ⦃f : Float F⦄ where
  -- TokenTpl()
  unfoldable pub inactive : Token F
  inactive = record { tb = none; cost = max_cost }

  unfoldable pub active : Token F → Bool
  active t = elim t.tb [ none ↦ false | some _ ↦ true ]

  unfoldable pub clear : Token F → Token F
  clear t = record { tb = none; cost = max_cost }

  unfoldable pub set_value : Option ℕ → F → Token F → Token F
  set_value tb cost t = record t { tb = tb; cost = cost }

  unfoldable pub set_cost : F → Token F → Token F
  set_cost cost t = record t { cost = cost }

  unfoldable pub expand : F → Token F → Token F
  unfolding active inactive
  expand w t = if active t then record { tb = t.tb; cost = add t.cost w } else inactive

  -- float Combine(const TokenTpl& token)
  unfoldable pub combine : Token F → Token F → Token F × F
  combine t token =
      let t' : Token F =
        if lt token.cost t.cost then record t { cost = token.cost; tb = token.tb } else t in
      (t', t'.cost)

  -- float Combine(const TokenTpl token, float w)
  unfoldable pub combine_weighted : Token F → Token F → F → Token F × F
  combine_weighted t token w =
      let t' : Token F =
        if lt (add token.cost w) t.cost
        then record t { cost = add token.cost w; tb = token.tb }
        else t in
      (t', t'.cost)
