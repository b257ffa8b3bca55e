-- ===== src/Examples/Tokens.antt =====
-- src/include/dcd/token.h at concrete tokens, with fixed-point costs.
use opendcd.Prelude.{ℕ, none, some, List, [], ◌∷◌}
use opendcd.Prelude.Float.{fixed}
use opendcd.Token.{Token}

abbrev first : Token ℕ
first = record { tb = some 1; cost = 100300 }

abbrev others : List (Token ℕ)
others = record { tb = some 2; cost = 100100 } ∷ record { tb = none; cost = 100200 } ∷ []
