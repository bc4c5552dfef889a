-- ===== src/Login/Samples.antt =====
-- A small database, and the theorems at work on it.
use ggs.Prelude.Int.{ℤ, pos}
use ggs.Login.{Character}

abbrev claims_of : Character → ℤ × ℤ × ℤ
claims_of c = (pos 7, pos 1, c.server_id)

abbrev sample_claims : ℤ × ℤ × ℤ
sample_claims = (pos 7, pos 1, pos 101)
